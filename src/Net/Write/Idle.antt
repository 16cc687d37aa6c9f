-- ===== src/Net/Write/Idle.antt =====
-- The writes of a packet while the buffer of tools.c gathers for no client.
use macintosh_craft.Base.{
  ℕ, ◌≡◌, ◌≢◌, refl, sym, ◌∙◌, Bool, true, false, Option, some, List, [], ◌∷◌, ◌++◌, inl, inr,
  Bool-cases,
}
use mathlib.Core.List.{append-nil, append_assoc}
use macintosh_craft.Base.Int.{ℤ, eq_ℤ, eq_ℤ_iff}
use macintosh_craft.Net.Buffer.{
  PacketBuffer, packet_flush_continue, write_to, write_byte, write_uint16, write_uint32,
  write_uint64, no_client,
}
use macintosh_craft.Net.Buffer.Stream.{sent_to}
use macintosh_craft.Net.Write.{
  Write, var_int, byte, uint16, uint32, uint64, float, double, direct, gathered, flush, var_bytes,
  bytes_of, wire, run_write, run_writes, write_bytes,
}

-- No `packet_write` on its own, which would write to the buffer.
unfoldable pub is_ungathered : List Write → Bool
is_ungathered [] = true
is_ungathered (gathered bs ∷ ws) = false
is_ungathered (w ∷ ws) = is_ungathered ws

-- The writes succeed, the client is sent their bytes, and the buffer gathers for no client still.
pub data Sends (client : ℤ) (b : PacketBuffer) (bytes : List ℕ) (o : Option PacketBuffer)
    : Type 0 where
  sends :
      (c : PacketBuffer)
      → o ≡ some c
      → c.fd ≡ no_client
      → sent_to client c.sent ≡ sent_to client b.sent ++ bytes
      → Sends client b bytes o

module _ (client : ℤ) (known : client ≢ no_client) where
  pub other_client : (b : PacketBuffer) → b.fd ≡ no_client → eq_ℤ b.fd client ≡ false
  other_client b idle = elim (Bool-cases (eq_ℤ b.fd client)) [
    | inl t ↦ absurd (known (sym ((eq_ℤ_iff b.fd client).0 t) ∙ idle))
    | inr f ↦ f
  ]

  send-Sends :
      (b : PacketBuffer) (bytes : List ℕ)
      → b.fd ≡ no_client
      → Sends client b bytes (some (record b { sent = (client, bytes) ∷ b.sent }))
  unfolding sent_to
  send-Sends b bytes idle =
      sends (record b { sent = (client, bytes) ∷ b.sent }) refl idle
        (rw ((eq_ℤ_iff client client).1 refl) refl)

  write_to-Sends :
      (b : PacketBuffer) (bytes : List ℕ)
      → b.fd ≡ no_client
      → Sends client b bytes (write_to client bytes b)
  unfolding write_to
  write_to-Sends b bytes idle = rw (other_client b idle) (send-Sends b bytes idle)

  write_bytes-Sends :
      (ns : List ℕ) (b : PacketBuffer)
      → b.fd ≡ no_client
      → Sends client b ns (write_bytes client ns b)
  unfolding write_bytes write_byte
  write_bytes-Sends [] b idle = sends b refl idle (sym (append-nil (sent_to client b.sent)))
  write_bytes-Sends (n ∷ ns) b idle = elim (write_to-Sends b (n ∷ []) idle) [
    | sends c w ic sc ↦ elim (write_bytes-Sends ns c ic) [
      | sends d x id sd ↦
          sends d (rw (w, write_bytes) x) id
            (sd ∙ rw sc (append_assoc (sent_to client b.sent) (n ∷ []) ns))
    ]
  ]

  flush-Sends :
      (b : PacketBuffer) → b.fd ≡ no_client → Sends client b [] (some (packet_flush_continue b))
  unfolding packet_flush_continue
  flush-Sends b idle =
      let test : eq_ℤ b.fd no_client ≡ true = (eq_ℤ_iff b.fd no_client).1 idle in
      rw test (sends b refl idle (sym (append-nil (sent_to client b.sent))))

  write-Sends :
      (w : Write) (ws : List Write) (b : PacketBuffer)
      → b.fd ≡ no_client
      → is_ungathered (w ∷ ws) ≡ true
      → Sends client b (bytes_of w) (run_write client w b) × (is_ungathered ws ≡ true)
  unfolding run_write bytes_of is_ungathered write_byte write_uint16 write_uint32 write_uint64
  write-Sends (var_int n) ws b idle ok = (write_bytes-Sends (var_bytes n) b idle, ok)
  write-Sends (byte n) ws b idle ok = (write_to-Sends b _ idle, ok)
  write-Sends (uint16 n) ws b idle ok = (write_to-Sends b _ idle, ok)
  write-Sends (uint32 n) ws b idle ok = (write_to-Sends b _ idle, ok)
  write-Sends (uint64 n) ws b idle ok = (write_to-Sends b _ idle, ok)
  write-Sends (float n) ws b idle ok = (write_to-Sends b _ idle, ok)
  write-Sends (double n) ws b idle ok = (write_to-Sends b _ idle, ok)
  write-Sends (direct bs) ws b idle ok = (send-Sends b bs idle, ok)
  write-Sends (gathered bs) ws b idle ok = absurd (cc)
  write-Sends flush ws b idle ok = (flush-Sends b idle, ok)

  pub run_writes-Sends :
      (ws : List Write) (b : PacketBuffer)
      → b.fd ≡ no_client
      → is_ungathered ws ≡ true
      → Sends client b (wire ws) (run_writes client ws b)
  unfolding wire run_writes
  run_writes-Sends [] b idle ok = sends b refl idle (sym (append-nil (sent_to client b.sent)))
  run_writes-Sends (w ∷ ws) b idle ok =
      let (first, rest) = write-Sends w ws b idle ok in
      elim first [
        | sends c e ic sc ↦ elim (run_writes-Sends ws c ic rest) [
          | sends d x id sd ↦
              sends d (rw (e, run_writes) x) id
                (sd ∙ rw sc (append_assoc (sent_to client b.sent) (bytes_of w) (wire ws)))
        ]
      ]
