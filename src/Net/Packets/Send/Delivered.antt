-- ===== src/Net/Packets/Send/Delivered.antt =====
-- What the client receives of the packets that packets.c sends.
use macintosh_craft.Base.{
  ℕ, ◌≡◌, ◌≢◌, refl, sym, ap, ◌∙◌, Bool, true, false, Option, none, some, List, [], ◌∷◌, ◌++◌,
  arith,
}
use mathlib.Core.Path.{subst}
use mathlib.Core.List.{append-nil, append_assoc}
use macintosh_craft.Base.Int.{ℤ, eq_ℤ_iff}
use macintosh_craft.Net.Buffer.{
  PacketBuffer, packet_start, packet_flush, packet_flush_continue, no_client,
}
use macintosh_craft.Net.Buffer.Stream.{sent_to, stream, IsBuffering, flush_keeps}
use macintosh_craft.Net.Write.{wire}
use macintosh_craft.Net.Write.Gather.{
  is_tidy, is_allowed, untrue, Gathers, gathers, run_writes-Gathers,
}
use macintosh_craft.Net.Write.Idle.{other_client, Sends, sends, run_writes-Sends}
use macintosh_craft.Net.Packets.Entities
use macintosh_craft.Net.Packets.{Environment}
use macintosh_craft.Net.Packets.Frame.{Packet, layout, update_entity_rotation}
use macintosh_craft.Net.Packets.Frame.Received.{sent_packets}
use macintosh_craft.Net.Packets.Send.{
  Mode, unbuffered, own_packet, batch_aware, mode, send_own, send_with, send_packet, send_packets,
  send_batch,
}
use macintosh_craft.Net.Packets.Send.Demand.{FitsBuffer, demand, layout-demand}

-- The packets that fit the buffer.
unfoldable pub AllFit : List Packet → Type 0
AllFit [] = Unit
AllFit (p ∷ ps) = FitsBuffer p × AllFit ps

-- The packets that may be part of a batch.
pub data IsBatchable : Packet → Type 0 where
  aware : {p : Packet} → mode p ≡ batch_aware → FitsBuffer p → IsBatchable p
  rotation : (id : ℤ) (yaw pitch : ℕ) → IsBatchable (update_entity_rotation id yaw pitch)

unfoldable pub AllBatchable : List Packet → Type 0
AllBatchable [] = Unit
AllBatchable (p ∷ ps) = IsBatchable p × AllBatchable ps

module _ (env : Environment) (client : ℤ) (known : client ≢ no_client) where
  -- What was gathered since `packet_start` is sent by `packet_flush`.
  flushed :
      (b : PacketBuffer) (bytes : List ℕ) {o : Option PacketBuffer}
      → Gathers client (packet_start client b) bytes false o
      → Sends client b bytes (elim o [ none ↦ none | some c ↦ some (packet_flush c) ])
  unfolding packet_start packet_flush
  flushed b bytes (gathers c e v fd s _) =
      let (kept_fd, empty, kept) = flush_keeps c v.client in
      let whole : sent_to c.fd (packet_flush_continue c).sent ≡ sent_to client b.sent ++ bytes =
        kept ∙ s ∙ ap (λ (x : List ℕ). x ++ bytes) (append-nil (sent_to client b.sent)) in
      sends (packet_flush c) (rw e refl) refl (
        subst (λ x. sent_to x (packet_flush_continue c).sent ≡ sent_to client b.sent ++ bytes) fd
          whole)

  started-IsBuffering : (b : PacketBuffer) → IsBuffering (packet_start client b)
  unfolding packet_start
  started-IsBuffering b = record { client = known; fits = omega arith }

  tidy-Sends :
      (empty : Bool) (p : Packet) (b : PacketBuffer)
      → is_tidy empty (layout env p) ≡ true
      → Sends client b (wire (layout env p)) (send_own env client p b)
  unfolding send_own packet_start
  tidy-Sends empty p b tidy = flushed b (wire (layout env p)) (
      run_writes-Gathers client empty (layout env p) (packet_start client b) (started-IsBuffering b)
        refl (λ _. refl) tidy)

  -- One packet, while no other is started.
  by_mode :
      (m : Mode) (p : Packet) (b : PacketBuffer)
      → b.fd ≡ no_client
      → demand m (layout env p) ≡ true
      → Sends client b (wire (layout env p)) (send_with m env client p b)
  unfolding send_with
  by_mode unbuffered p b idle ok = run_writes-Sends client known (layout env p) b idle ok
  by_mode own_packet p b idle ok = tidy-Sends true p b ok
  by_mode batch_aware p b idle ok = rw (other_client client known b idle) (tidy-Sends false p b ok)

  packets-Sends :
      (ps : List Packet) (b : PacketBuffer)
      → b.fd ≡ no_client
      → AllFit ps
      → Sends client b (sent_packets env ps) (send_packets env client ps b)
  unfolding send_packets send_packet AllFit
  packets-Sends [] b idle fits = sends b refl idle (sym (append-nil (sent_to client b.sent)))
  packets-Sends (p ∷ ps) b idle fits =
      elim (by_mode (mode p) p b idle (layout-demand env p fits.0)) [
        | sends c e ic sc ↦ elim (packets-Sends ps c ic fits.1) [
          | sends d x id sd ↦ sends d (rw (e, send_packets) x) id (
              sd
              ∙ rw sc (
                  append_assoc (sent_to client b.sent) (wire (layout env p)) (sent_packets env ps)))
        ]
      ]

  -- One packet of a batch.
  batched-Gathers :
      (p : Packet) (b : PacketBuffer)
      → IsBuffering b
      → b.fd ≡ client
      → IsBatchable p
      → Gathers client b (wire (layout env p)) false (send_packet env client p b)
  unfolding send_packet send_with is_tidy is_allowed Entities.sc_update_entity_rotation
  batched-Gathers p b v here (aware e fits) =
      subst (λ m. Gathers client b (wire (layout env p)) false (send_with m env client p b)) (sym e)
        (rw ((eq_ℤ_iff b.fd client).1 here) (
          run_writes-Gathers client false (layout env p) b v here untrue
            (subst (λ m. demand m (layout env p) ≡ true) e (layout-demand env p fits))))
  batched-Gathers _ b v here (rotation id yaw pitch) =
      run_writes-Gathers client false (layout env (update_entity_rotation id yaw pitch)) b v here
        untrue refl

  batch-Gathers :
      (ps : List Packet) (b : PacketBuffer)
      → IsBuffering b
      → b.fd ≡ client
      → AllBatchable ps
      → Gathers client b (sent_packets env ps) false (send_packets env client ps b)
  unfolding send_packets AllBatchable
  batch-Gathers [] b v here all = gathers b refl v here (sym (append-nil (stream b))) untrue
  batch-Gathers (p ∷ ps) b v here all = elim (batched-Gathers p b v here all.0) [
    | gathers c e vc fc sc _ ↦ elim (batch-Gathers ps c vc fc all.1) [
      | gathers d x vd fd sd _ ↦
          gathers d (rw (e, send_packets) x) vd fd
            (sd ∙ rw sc (append_assoc (stream b) (wire (layout env p)) (sent_packets env ps)))
            untrue
    ]
  ]

-- Packets that are sent one after the other to a client, not -1, while no batch is started and with no chat
-- message longer than the buffer, all succeed, and the client is sent their bytes in order and once,
-- behind what it was sent before, whichever of them use the buffer. No batch is started afterwards.
-- What `chunk_interleave_callback` sends the client in the middle of a chunk is given with the chunk,
-- and stands there among its bytes.
pub send_packets-sent :
    (env : Environment) (client : ℤ) (ps : List Packet) (b : PacketBuffer)
    → client ≢ no_client
    → b.fd ≡ no_client
    → AllFit ps
    → (c : PacketBuffer) × (send_packets env client ps b ≡ some c)
      × (c.fd ≡ no_client)
      × (sent_to client c.sent ≡ sent_to client b.sent ++ sent_packets env ps)
send_packets-sent env client ps b known idle fits =
    elim (packets-Sends env client known ps b idle fits) [ sends c e i s ↦ (c, e, i, s) ]

-- A batch for a client, not -1, of packets that look whether one is started or of entity rotations, however
-- long, never runs past the buffer, and the client is sent the bytes of its packets in order and
-- once. No batch is started afterwards.
pub send_batch-sent :
    (env : Environment) (client : ℤ) (ps : List Packet) (b : PacketBuffer)
    → client ≢ no_client
    → AllBatchable ps
    → (c : PacketBuffer) × (send_batch env client ps b ≡ some c)
      × (c.fd ≡ no_client)
      × (sent_to client c.sent ≡ sent_to client b.sent ++ sent_packets env ps)
unfolding send_batch packet_start
send_batch-sent env client ps b known all =
    elim (flushed env client known b (sent_packets env ps) (
      batch-Gathers env client known ps (packet_start client b)
        (started-IsBuffering env client known b) refl all)) [ sends c e i s ↦ (c, e, i, s) ]
