-- ===== src/Ws/Runs.antt =====
-- Frames of RFC 6455 read, and the theorems at concrete inputs.
use sipr.Common.{
  ℕ, ◌≤◌, Bool, true, false, List, [], ◌∷◌, ◌++◌, Option, none, some, ◌≡◌, refl, length, arith,
}
use sipr.Ws
use sipr.Ws.{
  max_message, Opcode, continuation, text, binary, close, ping, pong, frame, extended, short_length,
  masked, mask_from, from_bits, WsEvent, message, ping_event, close_event, FrameError, bad_opcode,
  fragmentation, too_large, Result, ok, err, WsFramer, Round, answer, payload_length, header_mask,
  header_opcode, header, deliver, unmasked, take_frame, round_with, round, event_loop, next_event,
}
use sipr.Ws.Frames.{fragment}
use sipr.Ws.Rounds.{Goes, next_event_ends}
use sipr.Ws.Bounds.{IsValid, new-IsValid, next_event-IsValid}
use sipr.Ws.Stream.{
  middle, joined, next_event-fragments, Gives, dry, more, Gives-written, written, messages,
  Gives-push,
}
use sipr.Ws.Wire.{web_socket, ws_wire, whole, new, next_message}
use sipr.Ws.Wire.Ends.{wrote, pinged, next_message-write, next_message-pings}

-- "Hello", masked.
abbrev hello_frame : List ℕ
hello_frame = 0x81 ∷ 0x85 ∷ 0x37 ∷ 0xfa ∷ 0x21 ∷ 0x3d ∷ 0x7f ∷ 0x9f ∷ 0x4d ∷ 0x51 ∷ 0x58 ∷ []

abbrev hello : List ℕ
hello = 72 ∷ 101 ∷ 108 ∷ 108 ∷ 111 ∷ []

abbrev key : List ℕ
key = 0x37 ∷ 0xfa ∷ 0x21 ∷ 0x3d ∷ []

frame-hello : frame text hello (some key) ≡ hello_frame
unfolding frame
frame-hello = refl

-- The answer of a framer that has these bytes.
abbrev answer_to : List ℕ → Result (Option WsEvent)
answer_to bytes = (next_event (record Ws.new { buf = bytes })).1

next_event_hello : answer_to hello_frame ≡ ok (some (message hello))
unfolding next_event Ws.new
next_event_hello = refl

next_event_waits : answer_to (0x81 ∷ 0x85 ∷ 0x37 ∷ []) ≡ ok none
unfolding next_event Ws.new
next_event_waits = refl

next_event_nothing_open : answer_to (0x80 ∷ 2 ∷ 108 ∷ 111 ∷ []) ≡ err fragmentation
unfolding next_event Ws.new
next_event_nothing_open = refl

next_event_reserved : answer_to (0x83 ∷ 0 ∷ []) ≡ err (bad_opcode 3)
unfolding next_event Ws.new
next_event_reserved = refl

next_event_huge :
    answer_to (0x82 ∷ 0x7f ∷ 255 ∷ 255 ∷ 255 ∷ 255 ∷ 255 ∷ 255 ∷ 255 ∷ 255 ∷ []) ≡ err too_large
unfolding next_event Ws.new
next_event_huge = refl

-- A fragment, a ping between, the last fragment.
abbrev fragmented : WsFramer
fragmented = record Ws.new {
  buf =
      1 ∷ 3 ∷ 72 ∷ 101 ∷ 108 ∷ 0x89 ∷ 2 ∷ 104 ∷ 105 ∷ 0x80 ∷ 2 ∷ 108 ∷ 111 ∷ 0x8a ∷ 0 ∷ 0x88 ∷ 0
      ∷ [];
}

next_event_interleaved :
    ((next_event fragmented).1 ≡ ok (some (ping_event (104 ∷ 105 ∷ []))))
    × ((next_event (next_event fragmented).0).1 ≡ ok (some (message hello)))
    × ((next_event (next_event (next_event fragmented).0).0).1 ≡ ok (some (close_event [])))
unfolding next_event Ws.new
next_event_interleaved = (refl, refl, refl)

Gives-written_example :
    Gives
      (Ws.push Ws.new (written ((hello, some key) ∷ (hello, none) ∷ [])))
      (messages ((hello, some key) ∷ (hello, none) ∷ []))
      Ws.new
Gives-written_example =
    Gives-written ((hello, some key) ∷ (hello, none) ∷ [])
      ((omega arith, refl), ((omega arith, tt), tt))

next_event-fragments_example :
    next_event (record Ws.new {
      buf =
          fragment false text (72 ∷ []) none
          ++ (middle ((101 ∷ [], some key) ∷ [])
              ++ (fragment true continuation (108 ∷ []) none ++ (9 ∷ [])));
    })
    ≡ (
      record Ws.new { buf = 9 ∷ [] },
      ok (some (message (((72 ∷ []) ++ joined ((101 ∷ [], some key) ∷ [])) ++ (108 ∷ [])))),
    )
unfolding joined
next_event-fragments_example =
    next_event-fragments (72 ∷ []) (108 ∷ []) (9 ∷ []) none none ((101 ∷ [], some key) ∷ []) tt
      (refl, tt) tt (omega arith)

-- Half a frame, and the other half.
Gives-push_example :
    Gives
      (Ws.push (record Ws.new { buf = 0x81 ∷ 1 ∷ [] }) (72 ∷ []))
      ([] ++ (message (72 ∷ []) ∷ []))
      Ws.new
unfolding Ws.push Ws.new next_event
Gives-push_example =
    Gives-push (record Ws.new { buf = 0x81 ∷ 1 ∷ [] }) (record Ws.new { buf = 0x81 ∷ 1 ∷ [] })
      (72 ∷ []) [] (message (72 ∷ []) ∷ []) Ws.new
      (dry (record Ws.new { buf = 0x81 ∷ 1 ∷ [] }) (record Ws.new { buf = 0x81 ∷ 1 ∷ [] }) refl)
      (more (Ws.push (record Ws.new { buf = 0x81 ∷ 1 ∷ [] }) (72 ∷ [])) Ws.new (message (72 ∷ []))
        [] Ws.new refl (dry Ws.new Ws.new refl))

next_event-IsValid_example :
    IsValid (next_event Ws.new).0
    × ((bytes : List ℕ)
        → (next_event Ws.new).1 ≡ ok (some (message bytes))
        → length bytes ≤ max_message)
next_event-IsValid_example = next_event-IsValid Ws.new new-IsValid

next_event_ends_example :
    (h : WsFramer) × Goes fragmented h
    × (round h ≡ answer (next_event fragmented).0 (next_event fragmented).1)
next_event_ends_example = next_event_ends fragmented

-- Replies are noted, and can all be written.
abbrev noted : List (Opcode × List ℕ) → Opcode → List ℕ → List (Opcode × List ℕ) × Bool
noted log opcode payload = ((opcode, payload) ∷ log, true)

abbrev pings : List (List ℕ × Option (List ℕ))
pings = (1 ∷ [], some key) ∷ ([], none) ∷ []

next_message-write_example :
    next_message noted (new web_socket (wrote (ws_wire true) [] text hello 7 ++ (9 ∷ []))) []
    ≡ (new web_socket (9 ∷ []), [], whole hello)
next_message-write_example =
    next_message-write noted [] true hello (9 ∷ []) 7 (omega arith, omega arith) (omega arith)

next_message-pings_example :
    next_message noted
      (new web_socket (pinged noted pings ++ (wrote (ws_wire true) [] text hello 7 ++ (9 ∷ []))))
      []
    ≡ (new web_socket (9 ∷ []), (pong, []) ∷ (pong, 1 ∷ []) ∷ [], whole hello)
next_message-pings_example =
    next_message-pings noted [] pings true hello (9 ∷ []) 7
      ((omega arith, refl), ((omega arith, tt), tt)) (refl, (refl, tt)) (omega arith, omega arith)
      (omega arith)
