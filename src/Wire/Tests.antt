-- ===== src/Wire/Tests.antt =====
-- Identifiers and frames at concrete inputs.
use sakura_chat_server.Prelude.{◌≡◌, ◌↔◌, Text, ascii, true, some, take, drop, arith}
use sakura_chat_server.Wire.{uuid}
use sakura_chat_server.Wire.Shape.{IsUuid, uuid-iff-IsUuid}
use sakura_chat_server.Wire.Frame.{IdNode, send_node, wire, parse_head, accepted}
use sakura_chat_server.Wire.Frame.Roundtrip.{parse_head-send_node}

abbrev sample_id : Text
sample_id = ascii "0123abcd-0000-4000-8000-0123456789AF"

uuid-iff-IsUuid_example : (uuid sample_id ≡ true) ↔ IsUuid sample_id
uuid-iff-IsUuid_example = uuid-iff-IsUuid sample_id

parse_head-send_node_example :
    (n : IdNode) × (send_node (ascii "{}") 2 1006 ≡ some n)
    × (parse_head (take 4 (wire n)) ≡ accepted 1006 2)
    × (drop 4 (wire n) ≡ ascii "{}")
unfolding ascii
parse_head-send_node_example =
    parse_head-send_node (ascii "{}") 1006 (omega arith) (omega arith) (omega arith) (omega arith)
