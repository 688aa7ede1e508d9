-- ===== src/Zigbee/Query/Replies.antt =====
-- zigbee/interview.go: which replies `zdoQuery` takes, and what the queries make of them.
use gzb.Base.{ℕ, ◌≡◌, ◌↔◌, refl, arith, Bool, true, Option, none, some, List, ◌∷◌, Bytes}
use gzb.Ezsp.Join.{IncomingMessage}
use gzb.Base.Result.{Result, ok, err}
use gzb.Ezsp.Send.{RequestError, Wake, request}
use gzb.Ezsp.Send.Reply.{Answers, request-Answers}
use gzb.Ezsp.Talk.{Failure, Ncp, Command}
use gzb.Zdo.{response_cluster, sequence}
use gzb.Zigbee.Query.{payload_of, zdo_query, answers_query, query_frame, profile_zdo}

-- A reply is taken for the answer to a question that starts with the sequence number `seq` exactly if
-- it came on the ZDO profile, on the response cluster, from the node asked, and starts with `seq`.
pub answers_query_iff :
    (node cluster seq : ℕ) (rest : Bytes) (m : IncomingMessage)
    → (answers_query node cluster (seq ∷ rest) m ≡ true) ↔ (
        (m.aps.profile ≡ profile_zdo)
        × (m.aps.cluster ≡ response_cluster cluster)
        × (m.sender ≡ node)
        × (sequence m.payload ≡ some seq))
unfolding answers_query
answers_query_iff node cluster seq rest m = ground arith

payload_of-ok :
    (o : Option (Result RequestError IncomingMessage)) (p : Bytes)
    → payload_of o ≡ some (ok p)
    → (m : IncomingMessage) × (o ≡ some (ok m)) × (m.payload ≡ p)
payload_of-ok none p e = cc
payload_of-ok (some (ok m)) p e = (m, refl, cc)
payload_of-ok (some (err x)) p e = cc

-- Whenever `zdoQuery` returns a payload for a question that starts with a sequence number, one of the
-- events of the wait carried it in a message on the ZDO profile, on the response cluster, from the node
-- that was asked, which starts with that sequence number.
pub zdo_query-answered :
    (expired : Failure → Bool) (node cluster seq : ℕ) (rest : Bytes) (ws : List Wake) (ncp : Ncp)
    (sent : List Command) (p : Bytes)
    → (zdo_query expired node cluster (seq ∷ rest) ws ncp sent).0 ≡ some (ok p)
    → (m : IncomingMessage) × ((j : ℕ) × Answers (answers_query node cluster (seq ∷ rest)) ws m j)
      × (m.aps.profile ≡ profile_zdo)
      × (m.aps.cluster ≡ response_cluster cluster)
      × (m.sender ≡ node)
      × (sequence m.payload ≡ some seq)
      × (m.payload ≡ p)
unfolding zdo_query
zdo_query-answered expired node cluster seq rest ws ncp sent p e =
    let payload : Bytes = seq ∷ rest in
    let matches : IncomingMessage → Bool = answers_query node cluster payload in
    let (m, got, is) =
      payload_of-ok (request expired node (query_frame cluster) payload matches ws ncp sent).0 p
        e in
    let (good, answers) =
      request-Answers expired node (query_frame cluster) payload matches ws ncp sent m got in
    let (profile, response, sender, same_seq) =
      (answers_query_iff node cluster seq rest m).0 good in
    (m, answers, profile, response, sender, same_seq, is)
