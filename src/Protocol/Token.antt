-- ===== src/Protocol/Token.antt =====
-- protocol/token.go: the secret token, its text form and what is derived from it.
pub mod RoundTrip
use aken.Base.{
  ℕ, ◌+◌, ◌-◌, ◌≡◌, Bool, true, false, ◌&&◌, ◌||◌, not, Option, none, some, List, [], ◌∷◌, ◌++◌,
  map, Bytes, arith, eqb, ◌==◌, bytes_eq, if◌then◌else◌, length, drop, replicate,
}
use aken.Encoding.Alphabet.{codes, within}
use aken.Encoding.Base32
use aken.Protocol.Crypto.{Crypto}
use aken.Protocol.Api.{SessionId, has_prefix, sized}

abbrev pub token_secret_size : ℕ
token_secret_size = 32

abbrev pub token_salt : Bytes
token_salt = codes "aken/token/v1"

abbrev pub token_prefix : Bytes
token_prefix = codes "akn1_"

pub record Token : Type 0 where
  pub secret : Bytes

-- strings.ToUpper and strings.ToLower on ASCII. A byte past ASCII is left as it is: whatever Go
-- makes of one, `parse_token` refuses it when it encodes the secret again.
unfoldable pub to_upper : ℕ → ℕ
to_upper c = if within b'a' b'z' c then c - 32 else c

unfoldable pub to_lower : ℕ → ℕ
to_lower c = if within b'A' b'Z' c then c + 32 else c

unfoldable pub encode : Token → Bytes
encode t = token_prefix ++ map to_lower (Base32.encode t.secret)

abbrev pub is_blank : ℕ → Bool
is_blank c = eqb c b' ' || eqb c 9 || eqb c 13 || eqb c 10

unfoldable pub trim_left : Bytes → Bytes
trim_left [] = []
trim_left (c ∷ s) = let rest = trim_left s in if is_blank c then rest else c ∷ s

unfoldable pub trim_right : Bytes → Bytes
trim_right [] = []
trim_right (c ∷ s) = elim (trim_right s) [
  | [] ↦ if is_blank c then [] else c ∷ []
  | d ∷ rest ↦ c ∷ d ∷ rest
]

-- strings.Trim(s, " \t\r\n")
unfoldable pub trim : Bytes → Bytes
unfolding trim_left trim_right
trim s = trim_right (trim_left s)

-- Encoding again rejects upper case and other forms of the last bits.
unfoldable pub reencoded : Bytes → Option Bytes → Option Token
reencoded s none = none
reencoded s (some secret) =
    let t : Token = record { secret = secret } in if not (encode t == s) then none else some t

unfoldable pub parse_trimmed : Bytes → Option Token
parse_trimmed s =
    if not (has_prefix s token_prefix) || not (eqb (length s) 57)
    then none
    else reencoded s (sized token_secret_size (Base32.decode (map to_upper (drop 5 s))))

unfoldable pub parse_token : Bytes → Option Token
parse_token s = parse_trimmed (trim s)

-- Every verb of fmt prints this in place of the secret.
abbrev pub redacted : Bytes
redacted = codes "akn1_[redacted]"

abbrev pub go_redacted : Bytes
go_redacted = codes "protocol.Token{[redacted]}"

-- verb == 'v' with the flag '#'
unfoldable pub format : Token → ℕ → Bool → Bytes
format t verb sharp = if eqb verb b'v' && sharp then go_redacted else redacted

-- clear(t.secret[:])
unfoldable pub zero_secret : Token → Token
zero_secret t = record { secret = replicate (length t.secret) 0 }

module _ (c : Crypto) where
  unfoldable pub derive : Token → Bytes → ℕ → Bytes
  derive t info n = c.hkdf t.secret token_salt info n

  unfoldable pub session_id : Token → SessionId
  session_id t = derive t (codes "session-id") 16

  unfoldable pub relay_credential : Token → Bytes
  relay_credential t = derive t (codes "relay-credential") 32

  unfoldable pub content_root : Token → Bytes
  content_root t = derive t (codes "content-root") 32

  unfoldable pub exchange_key : Token → Bytes
  exchange_key t = derive t (codes "exchange-key") 32
