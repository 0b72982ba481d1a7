-- ===== src/OpenaiHttp/Reader/Delivery.antt =====
-- The bytes that AsyncReadRx gives are those of the messages, in their order.
use decentralized_llm_infere.Base.{
  ℕ, ◌+◌, ◌-◌, ◌≤◌, ◌<◌, ◌≡◌, refl, sym, ap, ◌∙◌, Bool, true, false, Bool-cases, inl, inr, Option,
  none, some, List, [], ◌∷◌, ◌++◌, length, take, drop, ltb, leb, min, arith,
}
use decentralized_llm_infere.Base.Slices.{
  length-drop, length-take, take_all, take-drop, empty_of_length, flatten-append,
}
use mathlib.Core.List.{flatten, append_assoc, append-nil}
use decentralized_llm_infere.OpenaiHttp.Reader.{
  AsyncReadRx, new, Poll, ready, read_buffer, at_end, poll_loop, poll_read, Event, sent,
  senders_gone, polled, given, run,
}

-- The bytes in the buffer that were not given yet.
abbrev pub left : Option (List ℕ) → ℕ → List ℕ
left none offset = []
left (some b) offset = drop offset b

-- The bytes that the reader still holds.
abbrev pub held : AsyncReadRx → List ℕ
held s = left s.buffer s.offset ++ flatten s.queue

abbrev pub Within : Option (List ℕ) → ℕ → Type 0
Within none offset = Unit {0}
Within (some b) offset = offset ≤ length b

-- A poll with room for `remaining` bytes, of a reader that held `before`.
pub record Answers (remaining : ℕ) (before : List ℕ) (closed : Bool) (p : Poll) (s : AsyncReadRx)
    : Type 0 where
  pub order : before ≡ given p ++ held s
  pub room : length (given p) ≤ remaining
  pub waits : given p ≡ [] → (before ≡ []) × (p ≡ at_end closed)
  pub within : Within s.buffer s.offset
  pub closed_kept : s.closed ≡ closed

read_buffer_lem :
    (remaining : ℕ) (buffer : Option (List ℕ)) (offset : ℕ)
    → Within buffer offset
    → 0 < remaining
    → (left buffer offset
        ≡ (read_buffer remaining buffer offset).0
          ++ left (read_buffer remaining buffer offset).1 (read_buffer remaining buffer offset).2)
      × (length (read_buffer remaining buffer offset).0 ≤ remaining)
      × ((read_buffer remaining buffer offset).0 ≡ [] → left buffer offset ≡ [])
      × Within (read_buffer remaining buffer offset).1 (read_buffer remaining buffer offset).2
unfolding read_buffer
read_buffer_lem remaining none offset w h = (refl, omega arith, λ _. refl, tt)
read_buffer_lem remaining (some b) offset w h =
    elim (Bool-cases (leb (length b) (offset + min (length b - offset) remaining))) [
      | inl all ↦
          let whole : take (min (length b - offset) remaining) (drop offset b) ≡ drop offset b =
            take_all _ (drop offset b) (ground (arith, length-drop offset b)) in
          rw all (
            sym (append-nil _ ∙ whole),
            ground (arith, length-take (min (length b - offset) remaining) (drop offset b)),
            λ e. sym whole ∙ e,
            tt,
          )
      | inr some' ↦ rw some' (
        sym (take-drop (min (length b - offset) remaining) offset _ b refl),
        ground (arith, length-take (min (length b - offset) remaining) (drop offset b)),
        λ e. absurd (
            ground (
              arith,
              ap length e,
              length-take (min (length b - offset) remaining) (drop offset b),
              length-drop offset b,
            )),
        ground arith,
      )
    ]

given-at_end : (closed : Bool) → given (at_end closed) ≡ []
given-at_end true = refl
given-at_end false = refl

-- A round that gives bytes ends the loop.
gives-Answers :
    (remaining : ℕ) (queue : List (List ℕ)) (closed : Bool) (buffer : Option (List ℕ)) (offset : ℕ)
    → Within buffer offset
    → 0 < remaining
    → ltb 0 (length (read_buffer remaining buffer offset).0) ≡ true
    → Answers remaining
        (left buffer offset ++ flatten queue)
        closed
        (ready (read_buffer remaining buffer offset).0)
        (record {
          queue = queue;
          closed = closed;
          buffer = (read_buffer remaining buffer offset).1;
          offset = (read_buffer remaining buffer offset).2;
        })
gives-Answers remaining queue closed buffer offset w h gives =
    let (order, room, waits, within) = read_buffer_lem remaining buffer offset w h in
    record {
      order = ap (λ x. x ++ flatten queue) order ∙ append_assoc _ _ (flatten queue);
      room = room;
      waits = λ e. absurd (ground (arith, ap length e, gives));
      within = within;
      closed_kept = refl;
    }

poll_loop-Answers :
    (remaining : ℕ) (queue : List (List ℕ)) (closed : Bool) (buffer : Option (List ℕ)) (offset : ℕ)
    → Within buffer offset
    → 0 < remaining
    → Answers remaining
        (left buffer offset ++ flatten queue)
        closed
        (poll_loop remaining queue closed buffer offset).0
        (poll_loop remaining queue closed buffer offset).1
unfolding poll_loop flatten
poll_loop-Answers remaining [] closed buffer offset w h =
    elim (Bool-cases (ltb 0 (length (read_buffer remaining buffer offset).0))) [
      | inl gives ↦ rw gives (gives-Answers remaining [] closed buffer offset w h gives)
      | inr nothing ↦
          let (order, room, waits, within) = read_buffer_lem remaining buffer offset w h in
          let none' = empty_of_length _ nothing in
          let empty = waits none' in
          rw nothing (record {
            order = rw (given-at_end closed) (
                ap (λ x. x ++ [])
                  (order
                    ∙ ap
                        (λ x.
                          x
                          ++ left (read_buffer remaining buffer offset).1
                              (read_buffer remaining buffer offset).2)
                        none'));
            room = rw (given-at_end closed) (omega arith);
            waits = λ _. (append-nil _ ∙ empty, refl);
            within = within;
            closed_kept = refl;
          })
    ]
poll_loop-Answers remaining (m ∷ ms) closed buffer offset w h =
    elim (Bool-cases (ltb 0 (length (read_buffer remaining buffer offset).0))) [
      | inl gives ↦ rw gives (gives-Answers remaining (m ∷ ms) closed buffer offset w h gives)
      | inr nothing ↦
          let (order, room, waits, within) = read_buffer_lem remaining buffer offset w h in
          let empty = waits (empty_of_length _ nothing) in
          rw (nothing, empty) (poll_loop-Answers remaining ms closed (some m) 0 (omega arith) h)
    ]

-- A poll with room for at least one byte gives bytes that the reader held, the first ones and as
-- many as there is room for at most, and keeps the others; it gives none only where there are
-- none, and then tells the end of the stream exactly if the senders are gone.
pub poll_read-Answers :
    (remaining : ℕ) (s : AsyncReadRx)
    → Within s.buffer s.offset
    → 0 < remaining
    → Answers remaining (held s) s.closed (poll_read remaining s).0 (poll_read remaining s).1
unfolding poll_read
poll_read-Answers remaining s w h =
    poll_loop-Answers remaining s.queue s.closed s.buffer s.offset w h

-- The bytes that are sent in some events.
abbrev pub sent_in : List Event → List ℕ
sent_in [] = []
sent_in (sent m ∷ es) = m ++ sent_in es
sent_in (senders_gone ∷ es) = sent_in es
sent_in (polled remaining ∷ es) = sent_in es

-- Every poll has room.
abbrev pub HaveRoom : List Event → Type 0
HaveRoom [] = Unit {0}
HaveRoom (sent m ∷ es) = HaveRoom es
HaveRoom (senders_gone ∷ es) = HaveRoom es
HaveRoom (polled remaining ∷ es) = (0 < remaining) × HaveRoom es

-- A message that is sent is held behind what was held.
pub sent-held :
    (m : List ℕ) (s : AsyncReadRx) (rest : List ℕ)
    → held s ++ (m ++ rest) ≡ held (record s { queue = s.queue ++ m ∷ [] }) ++ rest
unfolding flatten
sent-held m s rest =
    rw (flatten-append s.queue (m ∷ []), append-nil m)
      (sym (append_assoc (held s) m rest)
        ∙ ap (λ x. x ++ rest) (append_assoc (left s.buffer s.offset) (flatten s.queue) m))

run_lem :
    (es : List Event) (s : AsyncReadRx)
    → Within s.buffer s.offset
    → HaveRoom es
    → (held s ++ sent_in es ≡ (run es s).0 ++ held (run es s).1)
      × Within (run es s).1.buffer (run es s).1.offset
unfolding run
run_lem [] s w h = (append-nil (held s), w)
run_lem (sent m ∷ es) s w h =
    let (e, w') = run_lem es (record s { queue = s.queue ++ m ∷ [] }) w h in
    (sent-held m s (sent_in es) ∙ e, w')
run_lem (senders_gone ∷ es) s w h = run_lem es (record s { closed = true }) w h
run_lem (polled remaining ∷ es) s w h =
    let a = poll_read-Answers remaining s w h.0 in
    let (e, w') = run_lem es (poll_read remaining s).1 a.within h.1 in
    (
      ap (λ x. x ++ sent_in es) a.order
          ∙ append_assoc (given (poll_read remaining s).0) (held (poll_read remaining s).1)
              (sent_in es)
          ∙ ap (λ x. given (poll_read remaining s).0 ++ x) e
          ∙ sym (append_assoc (given (poll_read remaining s).0) _ _),
      w',
    )

-- Whatever is sent over the channel of a new reader and however it is polled, as long as each poll
-- has room for a byte: the bytes that the polls gave, followed by those that the reader still holds,
-- are the bytes of the messages, in their order.
pub run-new : (es : List Event) → HaveRoom es → sent_in es ≡ (run es new).0 ++ held (run es new).1
unfolding new flatten
run-new es h = (run_lem es new tt h).0

-- In any such history, the next poll with room for at least one byte gives the first bytes that the
-- reader holds, at most as many as there is room for, and keeps the others. It gives none only where
-- the reader holds none; it then tells the end of the stream if every sender is gone, and is pending
-- otherwise.
pub run-poll_read :
    (es : List Event) (remaining : ℕ)
    → HaveRoom es
    → 0 < remaining
    → Answers remaining
        (held (run es new).1)
        (run es new).1.closed
        (poll_read remaining (run es new).1).0
        (poll_read remaining (run es new).1).1
unfolding new
run-poll_read es remaining h room =
    poll_read-Answers remaining (run es new).1 (run_lem es new tt h).1 room
