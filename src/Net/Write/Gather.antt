-- ===== src/Net/Write/Gather.antt =====
-- The writes of a packet while the buffer of tools.c gathers for its client.
use macintosh_craft.Base.{
  and_left, and_right, ℕ, zero, suc, ◌≤◌, ◌≡◌, refl, sym, ap, ◌∙◌, Bool, true, false, ◌&&◌, Option,
  some, List, [], ◌∷◌, ◌++◌, length, arith, leb, leb→le,
}
use mathlib.Core.List.{append-nil, append_assoc}
use macintosh_craft.Base.Int.{ℤ, eq_ℤ, eq_ℤ_iff}
use macintosh_craft.Net.Words.{be16, be32, be64}
use macintosh_craft.Net.Buffer.{
  PacketBuffer, packet_write, packet_flush_continue, packet_buffer_size, write_to, write_byte,
  write_uint16, write_uint32, write_uint64,
}
use macintosh_craft.Net.Buffer.Stream.{stream, sent_to, IsBuffering, write_step, flush_keeps}
use macintosh_craft.Net.Write.{
  Write, var_int, byte, uint16, uint32, uint64, float, double, direct, gathered, flush, var_bytes,
  bytes_of, wire, run_write, run_writes, write_bytes, repeat,
}

-- Whether a write may be made, and whether the buffer is known to be empty after it. Nothing goes
-- past the buffer while there are bytes in it, and nothing is longer than the buffer.
unfoldable pub is_allowed : Bool → Write → Bool
is_allowed empty (direct bs) = empty
is_allowed empty (gathered bs) = leb (length bs) packet_buffer_size
is_allowed empty _ = true

unfoldable pub empty_after : Bool → Write → Bool
empty_after empty (direct bs) = empty
empty_after empty flush = true
empty_after empty _ = false

unfoldable pub is_tidy : Bool → List Write → Bool
is_tidy empty [] = true
is_tidy empty (w ∷ ws) = is_allowed empty w && is_tidy (empty_after empty w) ws

-- The writes succeed, and add their bytes to the stream of the client.
pub data Gathers (client : ℤ) (b : PacketBuffer) (bytes : List ℕ) (empty : Bool)
    (o : Option PacketBuffer) : Type 0 where
  gathers :
      (c : PacketBuffer)
      → o ≡ some c
      → IsBuffering c
      → c.fd ≡ client
      → stream c ≡ stream b ++ bytes
      → (empty ≡ true → c.bytes ≡ [])
      → Gathers client b bytes empty o

pub untrue : {P : Type 0} → false ≡ true → P
untrue e = absurd (cc)

module _ (client : ℤ) where
  same_client : (b : PacketBuffer) → b.fd ≡ client → eq_ℤ b.fd client ≡ true
  same_client b e = (eq_ℤ_iff b.fd client).1 e

  packet_write-Gathers :
      (b : PacketBuffer) (bytes : List ℕ)
      → IsBuffering b
      → b.fd ≡ client
      → length bytes ≤ packet_buffer_size
      → Gathers client b bytes false (packet_write bytes b)
  packet_write-Gathers b bytes v here small =
      let (c, w, vc, fd, s) = write_step b bytes v small in gathers c w vc (fd ∙ here) s untrue

  write_to-Gathers :
      (b : PacketBuffer) (bytes : List ℕ)
      → IsBuffering b
      → b.fd ≡ client
      → length bytes ≤ packet_buffer_size
      → Gathers client b bytes false (write_to client bytes b)
  unfolding write_to
  write_to-Gathers b bytes v here small =
      rw (same_client b here) (packet_write-Gathers b bytes v here small)

  write_bytes-Gathers :
      (ns : List ℕ) (b : PacketBuffer)
      → IsBuffering b
      → b.fd ≡ client
      → Gathers client b ns false (write_bytes client ns b)
  unfolding write_bytes write_byte
  write_bytes-Gathers [] b v here = gathers b refl v here (sym (append-nil (stream b))) untrue
  write_bytes-Gathers (n ∷ ns) b v here = elim (write_to-Gathers b (n ∷ []) v here (omega arith)) [
    | gathers c w vc fc sc _ ↦ elim (write_bytes-Gathers ns c vc fc) [
      | gathers d x vd fd sd _ ↦
          gathers d (rw (w, write_bytes) x) vd fd (sd ∙ rw sc (append_assoc (stream b) (n ∷ []) ns))
            untrue
    ]
  ]

  flush-Gathers :
      (b : PacketBuffer)
      → IsBuffering b
      → b.fd ≡ client
      → Gathers client b [] true (some (packet_flush_continue b))
  flush-Gathers b v here =
      let (fd, empty, kept) = flush_keeps b v.client in
      gathers (packet_flush_continue b) refl
        (record { client = rw fd v.client; fits = rw empty (omega arith) }) (fd ∙ here)
        (rw (fd, kept, empty) refl) (λ _. empty)

  direct-Gathers :
      (b : PacketBuffer) (bytes : List ℕ)
      → IsBuffering b
      → b.fd ≡ client
      → b.bytes ≡ []
      → Gathers client b bytes true (some (record b { sent = (client, bytes) ∷ b.sent }))
  unfolding sent_to
  direct-Gathers b bytes v here empty =
      gathers (record b { sent = (client, bytes) ∷ b.sent }) refl
        (record { client = v.client; fits = v.fits }) here
        (rw ((eq_ℤ_iff client b.fd).1 (sym here), empty)
          (append-nil (sent_to b.fd b.sent ++ bytes)
            ∙ ap (λ (x : List ℕ). x ++ bytes) (sym (append-nil (sent_to b.fd b.sent)))))
        (λ _. empty)

  write-Gathers :
      (empty : Bool) (w : Write) (b : PacketBuffer)
      → IsBuffering b
      → b.fd ≡ client
      → (empty ≡ true → b.bytes ≡ [])
      → is_allowed empty w ≡ true
      → Gathers client b (bytes_of w) (empty_after empty w) (run_write client w b)
  unfolding run_write bytes_of is_allowed empty_after write_byte write_uint16 write_uint32
      write_uint64 be16 be32 be64
  write-Gathers empty (var_int n) b v here clear ok = write_bytes-Gathers (var_bytes n) b v here
  write-Gathers empty (byte n) b v here clear ok = write_to-Gathers b _ v here (omega arith)
  write-Gathers empty (uint16 n) b v here clear ok = write_to-Gathers b _ v here (omega arith)
  write-Gathers empty (uint32 n) b v here clear ok = write_to-Gathers b _ v here (omega arith)
  write-Gathers empty (uint64 n) b v here clear ok = write_to-Gathers b _ v here (omega arith)
  write-Gathers empty (float n) b v here clear ok = write_to-Gathers b _ v here (omega arith)
  write-Gathers empty (double n) b v here clear ok = write_to-Gathers b _ v here (omega arith)
  write-Gathers true (direct bs) b v here clear ok = direct-Gathers b bs v here (clear refl)
  write-Gathers false (direct bs) b v here clear ok = untrue ok
  write-Gathers empty (gathered bs) b v here clear ok =
      packet_write-Gathers b bs v here (leb→le (length bs) packet_buffer_size ok)
  write-Gathers empty flush b v here clear ok = flush-Gathers b v here

  -- The writes of a tidy packet, one after the other.
  pub run_writes-Gathers :
      (empty : Bool) (ws : List Write) (b : PacketBuffer)
      → IsBuffering b
      → b.fd ≡ client
      → (empty ≡ true → b.bytes ≡ [])
      → is_tidy empty ws ≡ true
      → Gathers client b (wire ws) false (run_writes client ws b)
  unfolding wire is_tidy run_writes
  run_writes-Gathers empty [] b v here clear tidy =
      gathers b refl v here (sym (append-nil (stream b))) untrue
  run_writes-Gathers empty (w ∷ ws) b v here clear tidy =
      let allowed = and_left (is_allowed empty w) _ tidy in
      let rest = and_right (is_allowed empty w) _ tidy in
      elim (write-Gathers empty w b v here clear allowed) [
        | gathers c e vc fc sc cc' ↦
            elim (run_writes-Gathers (empty_after empty w) ws c vc fc cc' rest) [
              | gathers d x vd fd sd _ ↦
                  gathers d (rw (e, run_writes) x) vd fd
                    (sd ∙ rw sc (append_assoc (stream b) (bytes_of w) (wire ws))) untrue
            ]
      ]

-- Tidy, whatever is known of the buffer before.
abbrev pub IsTidy : List Write → Type 0
IsTidy ws = (empty : Bool) → is_tidy empty ws ≡ true

pub is_tidy-append :
    (us ws : List Write) (empty : Bool)
    → is_tidy empty us ≡ true
    → IsTidy ws
    → is_tidy empty (us ++ ws) ≡ true
unfolding is_tidy
is_tidy-append [] ws empty h k = k empty
is_tidy-append (u ∷ us) ws empty h k =
    rw (and_left (is_allowed empty u) _ h)
      (is_tidy-append us ws (empty_after empty u) (and_right (is_allowed empty u) _ h) k)

pub append-IsTidy : (us ws : List Write) → IsTidy us → IsTidy ws → IsTidy (us ++ ws)
append-IsTidy us ws h k empty = is_tidy-append us ws empty (h empty) k

pub repeat-IsTidy : (n : ℕ) (ws : List Write) → IsTidy ws → IsTidy (repeat n ws)
unfolding repeat is_tidy
repeat-IsTidy zero ws h empty = refl
repeat-IsTidy (suc n) ws h empty = append-IsTidy ws (repeat n ws) h (repeat-IsTidy n ws h) empty
