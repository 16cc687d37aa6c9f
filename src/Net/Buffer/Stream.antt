-- ===== src/Net/Buffer/Stream.antt =====
-- What a client receives of the writes to the buffer.
use macintosh_craft.Base.{
  ℕ, ◌+◌, ◌≤◌, ◌≡◌, ◌≢◌, refl, sym, ap, ◌∙◌, true, false, Option, none, some,
}
use macintosh_craft.Base.{
  List, [], ◌∷◌, ◌++◌, length, length-append, arith, Bool-cases, ==→eq, leb→le, if◌then◌else◌, inl,
  inr, ltb, leb, ◌==◌,
}
use macintosh_craft.Base.Int.{ℤ, eq_ℤ, eq_ℤ_iff, eq_of_parts}
use macintosh_craft.Net.Buffer.{
  PacketBuffer, packet_start, packet_write, packet_flush, packet_flush_continue,
}
use macintosh_craft.Net.Buffer.{no_client, write_byte, write_to, packet_buffer_size}
use mathlib.Core.Path.{subst}
use mathlib.Core.List.{append-nil, append_assoc}

-- All bytes that were sent to the client, in order.
unfoldable pub sent_to : ℤ → List (ℤ × List ℕ) → List ℕ
sent_to client [] = []
sent_to client ((fd, buf) ∷ sent) =
    let before = sent_to client sent in if eq_ℤ fd client then before ++ buf else before

-- The bytes on their way to the client: those that were sent, and those in the buffer.
abbrev pub stream : PacketBuffer → List ℕ
stream b = sent_to b.fd b.sent ++ b.bytes

-- Writes, one after the other.
unfoldable pub write_all : List (List ℕ) → PacketBuffer → Option PacketBuffer
write_all [] b = some b
write_all (buf ∷ bufs) b = elim (packet_write buf b) [ some b' ↦ write_all bufs b' | none ↦ none ]

abbrev pub concat : List (List ℕ) → List ℕ
concat [] = []
concat (buf ∷ bufs) = buf ++ concat bufs

abbrev pub AllFit : List (List ℕ) → Type 0
AllFit [] = Unit
AllFit (buf ∷ bufs) = (length buf ≤ packet_buffer_size) × AllFit bufs

pub record IsBuffering (b : PacketBuffer) : Type 0 where
  pub client : b.fd ≢ no_client
  pub fits : length b.bytes ≤ packet_buffer_size

length-zero : (xs : List ℕ) → length xs ≡ 0 → xs ≡ []
length-zero [] e = refl
length-zero (x ∷ xs) e = absurd (omega arith)

-- Flushing loses nothing and keeps the client.
pub flush_keeps :
    (b : PacketBuffer)
    → b.fd ≢ no_client
    → ((packet_flush_continue b).fd ≡ b.fd)
      × ((packet_flush_continue b).bytes ≡ [])
      × (sent_to b.fd (packet_flush_continue b).sent ≡ stream b)
unfolding packet_flush_continue sent_to
flush_keeps b h =
    let client : eq_ℤ b.fd no_client ≡ false = ground (arith, eq_of_parts b.fd no_client) in
    elim (Bool-cases (length b.bytes == 0)) [
      | inl e ↦
          let none_left = length-zero b.bytes (==→eq _ _ e) in
          rw (client, e) (refl, none_left, rw (none_left, append-nil))
      | inr e ↦ rw (client, e) (refl, refl, rw (eq_ℤ_iff b.fd b.fd).1 refl)
    ]

-- A write of at most the buffer's size succeeds, and adds its bytes to the stream.
pub write_step :
    (b : PacketBuffer) (buf : List ℕ)
    → IsBuffering b
    → length buf ≤ packet_buffer_size
    → (b' : PacketBuffer) × (packet_write buf b ≡ some b')
      × IsBuffering b'
      × (b'.fd ≡ b.fd)
      × (stream b' ≡ stream b ++ buf)
unfolding packet_write
write_step b buf v h = elim (Bool-cases (ltb packet_buffer_size (length b.bytes + length buf))) [
  | inr room ↦
      let fits : leb (length b.bytes + length buf) packet_buffer_size ≡ true = ground arith in
      (
        record b { bytes = b.bytes ++ buf },
        rw (room, fits),
        record {
          client = v.client;
          fits = omega (arith, length-append b.bytes buf, leb→le _ _ fits);
        },
        refl,
        sym (append_assoc _ b.bytes buf),
      )
  | inl over ↦
      let f = packet_flush_continue b in
      let (fd, empty, kept) = flush_keeps b v.client in
      let fits : leb (length f.bytes + length buf) packet_buffer_size ≡ true =
        rw empty (ground arith) in
      (
        record f { bytes = f.bytes ++ buf },
        rw (over, fits),
        record {
          client = rw fd v.client;
          fits = omega (arith, length-append f.bytes buf, leb→le _ _ fits);
        },
        fd,
        rw (fd, kept, empty),
      )
]

write_all-stream :
    (bufs : List (List ℕ)) (b : PacketBuffer)
    → IsBuffering b
    → AllFit bufs
    → (b' : PacketBuffer) × (write_all bufs b ≡ some b')
      × IsBuffering b'
      × (b'.fd ≡ b.fd)
      × (stream b' ≡ stream b ++ concat bufs)
unfolding write_all
write_all-stream [] b v fit = (b, refl, v, refl, sym (append-nil (stream b)))
write_all-stream (buf ∷ bufs) b v (h, fit) =
    let (c, w, vc, fc, sc) = write_step b buf v h in
    let (d, x, vd, fd, sd) = write_all-stream bufs c vc fit in
    (d, rw (w, write_all) x, vd, fd ∙ fc, sd ∙ rw sc (append_assoc (stream b) buf (concat bufs)))

-- From `packet_start` for a client to `packet_flush`, writes of at most 2048 bytes each, however
-- many, never run past the buffer, and the client is sent their bytes in order, once, behind what
-- it was sent before. Nothing stays in the buffer.
pub packet_stream :
    (client : ℤ) (b : PacketBuffer) (bufs : List (List ℕ))
    → client ≢ no_client
    → AllFit bufs
    → (c : PacketBuffer) × (write_all bufs (packet_start client b) ≡ some c)
      × (length c.bytes ≤ packet_buffer_size)
      × (sent_to client (packet_flush c).sent ≡ sent_to client b.sent ++ concat bufs)
      × ((packet_flush c).bytes ≡ [])
unfolding packet_start packet_flush
packet_stream client b bufs h fit =
    let start = packet_start client b in
    let v : IsBuffering start = record { client = h; fits = omega arith } in
    let (c, w, vc, fc, sc) = write_all-stream bufs start v fit in
    let (fd, empty, kept) = flush_keeps c vc.client in
    let whole : sent_to c.fd (packet_flush_continue c).sent ≡ sent_to client b.sent ++ concat bufs =
      kept ∙ sc ∙ ap (λ (x : List ℕ). x ++ concat bufs) (append-nil (sent_to client b.sent)) in
    (
      c,
      w,
      vc.fits,
      subst (λ x. sent_to x (packet_flush_continue c).sent ≡ sent_to client b.sent ++ concat bufs)
          fc whole,
      empty,
    )

-- While no packet is started, a byte for the client -1, an offline player's, goes into the buffer,
-- and when the buffer is full the byte is written past its end: `packet_flush_continue` does not
-- empty the buffer of no client.
pub write_byte-no_client :
    (b : PacketBuffer) (byte : ℕ)
    → b.fd ≡ no_client
    → length b.bytes ≤ packet_buffer_size
    → write_byte no_client byte b ≡ (
        if ltb (length b.bytes) packet_buffer_size
        then some (record b { bytes = b.bytes ++ byte ∷ [] })
        else none)
unfolding write_byte write_to packet_write packet_flush_continue
write_byte-no_client b byte idle fits =
    let here : eq_ℤ b.fd no_client ≡ true = ground arith in ground arith
