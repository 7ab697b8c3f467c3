-- ===== src/Relay/Http/Bodies.antt =====
-- `readBody` of relay/handler.go.
use aken.Base.{ℕ, ◌≡◌, ◌≢◌, ◌≤◌, arith, Bytes, length}
use aken.Relay.Http.{Request, Response, refused, body_of, read_body}

pub read_body_refuses :
    (r : Request) (cap_bytes : ℕ) (why : Response)
    → read_body r cap_bytes ≡ refused why
    → why.status ≢ 201
unfolding read_body
read_body_refuses r cap_bytes why h = ground arith

-- A body that was read is the request's, and within the cap.
pub read_body_whole :
    (r : Request) (cap_bytes : ℕ) (body : Bytes)
    → read_body r cap_bytes ≡ body_of body
    → (body ≡ r.body) × (length r.body ≤ cap_bytes)
unfolding read_body
read_body_whole r cap_bytes body h = ground arith
