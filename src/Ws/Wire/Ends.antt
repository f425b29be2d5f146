-- ===== src/Ws/Wire/Ends.antt =====
-- A message written at one end of a connection, read at the other.
use sipr.Common.{
  ℕ, zero, suc, ◌+◌, ◌≤◌, Bool, true, false, List, [], ◌++◌, Option, none, some, ◌≡◌, refl, sym, ap,
  ◌∙◌, inl, inr, length, arith, if◌then◌else◌, Bool-cases, All, ◌∷◌,
}
use mathlib.Core.List.{append_assoc}
use sipr.Rng.Period.{IsState, fill_keeps}
use sipr.Ws
use sipr.Ws.{
  max_message, Opcode, text, close, ping, pong, frame, WsEvent, message, ping_event, close_event,
  Result, ok, err, WsFramer, next_event,
}
use sipr.Ws.Frames.{MaskFits}
use sipr.Ws.Stream.{next_event-frame, CanSend}
use sipr.Ws.Bounds.{next_event-shorter}
use sipr.Ws.Wire.{
  web_socket, Wire, ws_wire, mask_key, key_for, write, write_bytes, Next, whole, need_more, closed,
  ws_framer, push, new, ws_step, ws_loop, next_message,
}

key_for-MaskFits :
    (mask : Bool) (rng : ℕ)
    → IsState rng
    → IsState (key_for mask rng).0 × MaskFits (key_for mask rng).1
unfolding key_for mask_key
key_for-MaskFits true rng state = fill_keeps rng 4 state
key_for-MaskFits false rng state = (state, tt)

-- What a wire writes of a message, for a writer that takes all bytes.
pub wrote : Wire → List ℕ → Opcode → List ℕ → ℕ → List ℕ
unfolding write
wrote wire out opcode payload rng =
    (write (λ s bytes. (s ++ bytes, true)) (λ s. (s, true)) wire out opcode payload rng).1.0

-- What the wire writes is a frame, whose key is good.
wrote-frame :
    (mask : Bool) (opcode : Opcode) (payload : List ℕ) (rng : ℕ)
    → wrote (ws_wire mask) [] opcode payload rng ≡ frame opcode payload (key_for mask rng).1
unfolding wrote write write_bytes
wrote-frame mask opcode payload rng = refl

module _ {ℓ} {S : Type ℓ} (reply : S → Opcode → List ℕ → S × Bool) where
  after : ℕ → WsFramer → S → WsFramer × S × Next
  after zero h t = (h, t, need_more)
  after (suc n) h t = ws_loop reply n h t

  ws_loop-step :
      (n : ℕ) (f g : WsFramer) (s : S) (x : Result (Option WsEvent))
      → next_event f ≡ (g, x)
      → ws_loop reply n f s ≡ ws_step reply (after n) s g x
  unfolding ws_loop after
  ws_loop-step zero f g s x e = ap (λ p. ws_step reply (after zero) s p.0 p.1) e
  ws_loop-step (suc n) f g s x e = ap (λ p. ws_step reply (after (suc n)) s p.0 p.1) e

  ws_step-ping :
      (rest : WsFramer → S → WsFramer × S × Next) (s : S) (f : WsFramer) (payload : List ℕ)
      (sent : Bool)
      → (reply s pong payload).1 ≡ sent
      → ws_step reply rest s f (ok (some (ping_event payload))) ≡ (
          if sent
          then rest f (reply s pong payload).0
          else (f, (reply s pong payload).0, closed false))
  unfolding ws_step
  ws_step-ping rest s f payload true e = rw (ws_step, e) refl
  ws_step-ping rest s f payload false e = rw (ws_step, e) refl

  ws_step_same :
      (rest rest' : WsFramer → S → WsFramer × S × Next) (s : S) (f : WsFramer)
      (x : Result (Option WsEvent))
      → ((event : WsEvent) → x ≡ ok (some event) → (t : S) → rest f t ≡ rest' f t)
      → ws_step reply rest s f x ≡ ws_step reply rest' s f x
  unfolding ws_step
  ws_step_same rest rest' s f (ok (some (message raw))) same = refl
  ws_step_same rest rest' s f (ok (some (ping_event payload))) same =
      elim (Bool-cases (reply s pong payload).1) [
        | inl sent ↦
            ws_step-ping rest s f payload true sent
            ∙ same (ping_event payload) refl (reply s pong payload).0
            ∙ sym (ws_step-ping rest' s f payload true sent)
        | inr lost ↦
            ws_step-ping rest s f payload false lost
            ∙ sym (ws_step-ping rest' s f payload false lost)
      ]
  ws_step_same rest rest' s f (ok (some (close_event payload))) same = refl
  ws_step_same rest rest' s f (ok none) same = refl
  ws_step_same rest rest' s f (err e) same = refl

  ws_loop_same :
      (n m : ℕ) (f : WsFramer) (s : S)
      → ((event : WsEvent)
          → 2 + length (next_event f).0.buf ≤ length f.buf
          → (t : S) → after n (next_event f).0 t ≡ after m (next_event f).0 t)
      → ws_loop reply n f s ≡ ws_loop reply m f s
  ws_loop_same n m f s same =
      ws_loop-step n f (next_event f).0 s (next_event f).1 refl
      ∙ ws_step_same (after n) (after m) s (next_event f).0 (next_event f).1 (λ event e.
        same event
          (next_event-shorter f (next_event f).0 event (ap (λ x. ((next_event f).0, x)) e)))
      ∙ sym (ws_loop-step m f (next_event f).0 s (next_event f).1 refl)

  -- More rounds than bytes change nothing.
  ws_loop_enough :
      (n m : ℕ) (f : WsFramer) (s : S)
      → length f.buf ≤ n
      → length f.buf ≤ m
      → ws_loop reply n f s ≡ ws_loop reply m f s
  unfolding after
  ws_loop_enough zero m f s h k = ws_loop_same zero m f s (λ event less t. absurd (omega arith))
  ws_loop_enough (suc n) zero f s h k =
      ws_loop_same (suc n) zero f s (λ event less t. absurd (omega arith))
  ws_loop_enough (suc n) (suc m) f s h k =
      ws_loop_same (suc n) (suc m) f s
        (λ event less t. ws_loop_enough n m (next_event f).0 t (omega arith) (omega arith))

  after_enough :
      (n : ℕ) (g : WsFramer) (t : S)
      → 2 + length g.buf ≤ n
      → after n g t ≡ ws_loop reply (length g.buf) g t
  unfolding after
  after_enough zero g t h = absurd (omega arith)
  after_enough (suc n) g t h = ws_loop_enough n (length g.buf) g t (omega arith) (omega arith)

  next_message-ping :
      (f g : WsFramer) (s : S) (payload : List ℕ)
      → next_event f ≡ (g, ok (some (ping_event payload)))
      → next_message reply (ws_framer f) s ≡ (
          if (reply s pong payload).1
          then next_message reply (ws_framer g) (reply s pong payload).0
          else (ws_framer g, (reply s pong payload).0, closed false))
  unfolding next_message
  next_message-ping f g s payload e =
      let first = ws_loop-step (length f.buf) f g s (ok (some (ping_event payload))) e in
      elim (Bool-cases (reply s pong payload).1) [
        | inl sent ↦ rw sent (
            ap (λ p. (ws_framer p.0, p.1, p.2))
              (first
                ∙ ws_step-ping (after (length f.buf)) s g payload true sent
                ∙ after_enough (length f.buf) g (reply s pong payload).0
                    (next_event-shorter f g (ping_event payload) e)))
        | inr lost ↦ rw lost (
            ap (λ p. (ws_framer p.0, p.1, p.2))
              (first ∙ ws_step-ping (after (length f.buf)) s g payload false lost))
      ]

  -- A message of at most `max_message` bytes that one end writes, dialed or accepted, under a state of the
  -- generator that is a word and not zero, is the next that the other end reads, whatever follows it, and
  -- its reader does not reply.
  pub next_message-write :
      (s : S) (mask : Bool) (payload rest : List ℕ) (rng : ℕ)
      → IsState rng
      → length payload ≤ max_message
      → next_message reply (new web_socket (wrote (ws_wire mask) [] text payload rng ++ rest)) s
        ≡ (new web_socket rest, s, whole payload)
  unfolding next_message new push Ws.push Ws.new ws_step
  next_message-write s mask payload rest rng state small =
      ap (λ p. (ws_framer p.0, p.1, p.2))
        (ws_loop-step _ (record Ws.new { buf = wrote (ws_wire mask) [] text payload rng ++ rest })
          (record Ws.new { buf = rest }) s (ok (some (message payload)))
          (ap (λ b. next_event (record Ws.new { buf = b ++ rest }))
              (wrote-frame mask text payload rng)
            ∙ next_event-frame text payload rest (key_for mask rng).1 (message payload) small
                (key_for-MaskFits mask rng state).1 refl))

  -- The frames of pings, each with its payload and its mask, and the reader's state once each is
  -- answered with a pong that has its payload.
  abbrev pub pinged : List (List ℕ × Option (List ℕ)) → List ℕ
  pinged [] = []
  pinged ((payload, mask) ∷ pings) = frame ping payload mask ++ pinged pings

  abbrev pub answered : S → List (List ℕ × Option (List ℕ)) → S
  answered s [] = s
  answered s ((payload, mask) ∷ pings) = answered (reply s pong payload).0 pings

  -- Every pong can be written.
  abbrev pub AllSent : S → List (List ℕ × Option (List ℕ)) → Type 0
  AllSent s [] = Unit
  AllSent s ((payload, mask) ∷ pings) =
      ((reply s pong payload).1 ≡ true) × AllSent (reply s pong payload).0 pings

  -- Any pings, each of at most `max_message` bytes and with a mask of four bytes or none, before a message
  -- of at most `max_message` bytes that one end writes under a state of the generator that is a word and
  -- not zero: the reader answers each ping in order with a pong that has its payload, as long as every
  -- pong can be written, and then gives the message and leaves the bytes behind it.
  pub next_message-pings :
      (s : S) (pings : List (List ℕ × Option (List ℕ))) (mask : Bool) (payload rest : List ℕ)
      (rng : ℕ)
      → All CanSend pings
      → AllSent s pings
      → IsState rng
      → length payload ≤ max_message
      → next_message reply
          (new web_socket (pinged pings ++ (wrote (ws_wire mask) [] text payload rng ++ rest)))
          s
        ≡ (new web_socket rest, answered s pings, whole payload)
  unfolding new push Ws.push Ws.new
  next_message-pings s [] mask payload rest rng can sent state small =
      next_message-write s mask payload rest rng state small
  next_message-pings s ((q, key) ∷ pings) mask payload rest rng ((short, fits), can) (one, sent)
        state small =
      let later = wrote (ws_wire mask) [] text payload rng ++ rest in
      ap (λ b. next_message reply (ws_framer (record Ws.new { buf = b })) s)
        (append_assoc (frame ping q key) (pinged pings) later)
      ∙ next_message-ping (record Ws.new { buf = frame ping q key ++ (pinged pings ++ later) })
          (record Ws.new { buf = pinged pings ++ later }) s q
          (next_event-frame ping q (pinged pings ++ later) key (ping_event q) short fits refl)
      ∙ rw one
          (next_message-pings (reply s pong q).0 pings mask payload rest rng can sent state small)
