-- ===== src/Protocol/Envelope/Agreement.antt =====
-- The key exchange of protocol/session.go: both sides derive one root, and a code made for one
-- message is accepted for that message.
use aken.Base.{◌≡◌, ap, Bytes, bytes_eq}
use aken.Protocol.Crypto.{Crypto, Exchange, ExchangeLaws}
use aken.Protocol.Api.{SessionId}
use aken.Protocol.Envelope.{root_of, content_root}

module _ (c : Crypto) (x : Exchange) (laws : ExchangeLaws x) where
  -- For an exchange whose two sides agree on the shared secret, the collector, with its private
  -- key and the client's public key, and the client, with its own, compute the same root, or are
  -- both refused.
  pub content_root_agrees :
      (collector client : Bytes) (id : SessionId)
      → content_root c x collector
          (x.public_key client)
          id
          (x.public_key collector)
          (x.public_key client)
        ≡ content_root c x client
            (x.public_key collector)
            id
            (x.public_key collector)
            (x.public_key client)
  unfolding content_root
  content_root_agrees collector client id =
      ap (root_of c x id (x.public_key collector) (x.public_key client))
        (laws.shared_comm collector client)
