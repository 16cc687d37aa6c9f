-- ===== src/Net/Packets/Frame/Received.antt =====
-- A client that takes the packets of packets.c apart by their lengths.
use macintosh_craft.Base.{
  ℕ, zero, suc, ◌%◌, ◌^◌, ◌<◌, ◌≡◌, ◌≢◌, refl, ap, ◌∙◌, List, [], ◌∷◌, ◌++◌, length, take, drop,
  arith,
}
use mathlib.Core.List.{append_assoc}
use macintosh_craft.Net.VarNum.{read_var_int, read_loop}
use macintosh_craft.Net.Write.{Write, bytes_of, wire}
use macintosh_craft.Net.Write.Size.{length-wire, var_bytes_law}
use macintosh_craft.Net.Packets.{Environment}
use macintosh_craft.Net.Packets.Frame.{Packet, layout}
use macintosh_craft.Net.Packets.Frame.Lengths.{
  IsFramed, nothing, by_var_int, by_byte, layout-IsFramed, IsWhole,
}

-- What follows the length.
abbrev pub content : List Write → List ℕ
content [] = []
content (w ∷ ws) = wire ws

-- Something is sent, and it is not too long for a length of 32 bits.
abbrev pub IsSendable : List Write → Type 0
IsSendable ws = (ws ≢ []) × (length (content ws) < 2 ^ 32)

-- A length, and as many bytes.
unfoldable pub read_frame : List ℕ → List ℕ × List ℕ
read_frame bytes = let (n, rest) = read_var_int bytes in (take n rest, drop n rest)

unfoldable pub read_frames : ℕ → List ℕ → List (List ℕ)
read_frames zero bytes = []
read_frames (suc k) bytes = let (frame, rest) = read_frame bytes in frame ∷ read_frames k rest

read_small : (n : ℕ) (rest : List ℕ) → n < 128 → read_var_int ((n % 256) ∷ rest) ≡ (n, rest)
unfolding read_var_int read_loop
read_small n rest h = ground arith

length_read :
    (ws : List Write) (rest : List ℕ)
    → IsFramed ws
    → IsSendable ws
    → read_var_int (wire ws ++ rest) ≡ (length (content ws), content ws ++ rest)
unfolding wire bytes_of
length_read _ rest nothing h = absurd (h.0 refl)
length_read _ rest (by_var_int {n} {ws} e) h =
    let (_, _, back) = var_bytes_law n (wire ws ++ rest) in
    let same : n % 2 ^ 32 ≡ length (wire ws) = omega (arith, length-wire ws, h.1) in
    rw append_assoc (back ∙ rw same refl)
length_read _ rest (by_byte {n} {ws} e small) h =
    read_small n (wire ws ++ rest) small
    ∙ ap (λ (k : ℕ). (k, wire ws ++ rest)) (omega (arith, length-wire ws))

take-append : (xs ys : List ℕ) → take (length xs) (xs ++ ys) ≡ xs
take-append [] ys = refl
take-append (x ∷ xs) ys = rw (take-append xs ys)

drop-append : (xs ys : List ℕ) → drop (length xs) (xs ++ ys) ≡ ys
drop-append [] ys = refl
drop-append (x ∷ xs) ys = drop-append xs ys

frame_read :
    (ws : List Write) (rest : List ℕ)
    → IsFramed ws
    → IsSendable ws
    → read_frame (wire ws ++ rest) ≡ (content ws, rest)
unfolding read_frame
frame_read ws rest f h =
    rw (length_read ws rest f h, take-append (content ws) rest, drop-append (content ws) rest) refl

-- The bytes of several packets, and what each has behind its length.
abbrev pub sent_packets : Environment → List Packet → List ℕ
sent_packets env [] = []
sent_packets env (p ∷ ps) = wire (layout env p) ++ sent_packets env ps

abbrev pub contents : Environment → List Packet → List (List ℕ)
contents env [] = []
contents env (p ∷ ps) = content (layout env p) ∷ contents env ps

unfoldable pub AllSendable : Environment → List Packet → Type 0
AllSendable env [] = Unit
AllSendable env (p ∷ ps) = IsSendable (layout env p) × IsWhole p × AllSendable env ps

-- A client that reads a length with `readVarInt` and then as many bytes takes any sequence of
-- packets apart, each into exactly what the server wrote behind its length. It is for packets that
-- are sent at all and fit the 32 bits of a length, and for chunks in the middle of which
-- `chunk_interleave_callback` sends the client nothing.
pub read_frames-sent :
    (env : Environment) (ps : List Packet)
    → AllSendable env ps
    → read_frames (length ps) (sent_packets env ps) ≡ contents env ps
unfolding read_frames AllSendable
read_frames-sent env [] h = refl
read_frames-sent env (p ∷ ps) h =
    rw (frame_read (layout env p) (sent_packets env ps) (layout-IsFramed env p h.1) h.0)
      (ap (λ (x : List (List ℕ)). content (layout env p) ∷ x) (read_frames-sent env ps h.2))
