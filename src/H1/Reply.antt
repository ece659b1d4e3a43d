-- ===== src/H1/Reply.antt =====
-- The response of `handleServerConn` in transport/h1/server.go to a client that is let in: its lines, the
-- empty one last. The value `accept` is the hash of the client's key, or empty.
use df.Prelude.{ℕ, Bool, List, [], ◌∷◌, ◌++◌, length, ltb, if◌then◌else◌}
use df.Conf.{codes}
use df.Http.Whole.{with_crlf}

abbrev pub status_line : Bool → List ℕ → List ℕ
status_line is_ws proto =
    proto ++ (if is_ws then codes " 101 Switching Protocols" else codes " 200 OK")

abbrev pub proto_line : List ℕ → List (List ℕ)
proto_line ws_proto =
    if ltb 0 (length ws_proto) then (codes "Sec-WebSocket-Protocol: " ++ ws_proto) ∷ [] else []

abbrev pub plain_lines : List (List ℕ)
plain_lines =
    codes "Connection: close"
    ∷ codes "Content-Type: image/png,stream=1"
    ∷ codes "Content-Transfer-Encoding: custom"
    ∷ []

unfoldable pub header_lines : Bool → List ℕ → List ℕ → List (List ℕ)
header_lines is_ws accept ws_proto =
    if is_ws
    then (codes "Connection: Upgrade"
        ∷ codes "Upgrade: websocket"
        ∷ (codes "Sec-WebSocket-Accept: " ++ accept)
        ∷ (proto_line ws_proto ++ codes "Sec-WebSocket-Version: 7" ∷ []))
    else plain_lines

-- The bytes that are written.
unfoldable pub response_bytes : Bool → List ℕ → List ℕ → List ℕ → List ℕ → List ℕ
unfolding header_lines with_crlf
response_bytes is_ws proto accept ws_proto token = with_crlf (
    status_line is_ws proto
    ∷ (header_lines is_ws accept ws_proto ++ ((codes "X-Token: " ++ token) ∷ [] ∷ [])))
