-- ===== src/OpenaiHttp/Completions/Relay.antt =====
-- What a client reads of a chat over chat_completions of crates/openai-http/src/api_chat.rs.
use decentralized_llm_infere.Base.{
  ℕ, ◌<◌, ◌≡◌, ◌≢◌, none, some, refl, sym, ap, ◌∙◌, Bool, true, false, Option, List, [], ◌∷◌, ◌++◌,
  map, arith,
}
use mathlib.Core.Path.{fun_ext}
use mathlib.Core.List.{flatten, append_assoc, append-nil}
use decentralized_llm_infere.Models.{Text}
use decentralized_llm_infere.OpenaiHttp.Reader as Reader
use decentralized_llm_infere.OpenaiHttp.Reader.{AsyncReadRx, Poll, ready, at_end, given, poll_read}
use decentralized_llm_infere.OpenaiHttp.Reader.Delivery.{held, Within, poll_read-Answers, sent-held}
use decentralized_llm_infere.OpenaiHttp.Completions.{
  Completion, new, Event, answered, chat_ends, relays, polled, response, relay, run,
}

-- The texts that the chat answers with.
abbrev pub answers_in : List Event → List Text
answers_in [] = []
answers_in (answered out ∷ es) = out ∷ answers_in es
answers_in (chat_ends ∷ es) = answers_in es
answers_in (relays ∷ es) = answers_in es
answers_in (polled remaining ∷ es) = answers_in es

-- A chat that has ended answers no more, and every poll has room for a byte.
abbrev pub IsOrderly : (ended : Bool) → List Event → Type 0
IsOrderly ended [] = Unit {0}
IsOrderly ended (answered out ∷ es) = (ended ≡ false) × IsOrderly ended es
IsOrderly ended (chat_ends ∷ es) = IsOrderly true es
IsOrderly ended (relays ∷ es) = IsOrderly ended es
IsOrderly ended (polled remaining ∷ es) = (0 < remaining) × IsOrderly ended es

-- The channel of the body is closed only where nothing is left to pass on.
record IsOpen (s : Completion) : Type 0 where
  within : Within s.stream.buffer s.stream.offset
  closed : s.stream.closed ≡ true → (s.rx ≡ []) × (s.ended ≡ true)

module _ (json : Text → Text) (into_bytes : Text → List ℕ) (plain_text : Option Bool) where
  -- The bytes of some texts.
  abbrev bytes_of : List Text → List ℕ
  bytes_of outs = flatten (map (response json into_bytes plain_text) outs)

  -- The bytes that are on their way to the client.
  abbrev pending_of : Completion → List ℕ
  pending_of s = held s.stream ++ bytes_of s.rx

  bytes_of-append : (xs ys : List Text) → bytes_of (xs ++ ys) ≡ bytes_of xs ++ bytes_of ys
  unfolding flatten
  bytes_of-append [] ys = refl
  bytes_of-append (x ∷ xs) ys =
      rw (bytes_of-append xs ys)
        (sym (append_assoc (response json into_bytes plain_text x) (bytes_of xs) (bytes_of ys)))

  relay_lem :
      (rx : List Text) (ended : Bool) (stream : AsyncReadRx)
      → (stream.closed ≡ true → (rx ≡ []) × (ended ≡ true))
      → Within stream.buffer stream.offset
      → (held stream ++ bytes_of rx
          ≡ held (relay json into_bytes plain_text rx ended stream).1
            ++ bytes_of (relay json into_bytes plain_text rx ended stream).0)
        × IsOpen (record {
          rx = (relay json into_bytes plain_text rx ended stream).0;
          ended = ended;
          stream = (relay json into_bytes plain_text rx ended stream).1;
        })
  unfolding relay flatten
  relay_lem (out ∷ rx) ended stream c w = (
    sent-held (response json into_bytes plain_text out) stream (bytes_of rx),
    record { within = w; closed = λ h. absurd (ground (arith, c h)) },
  )
  relay_lem [] true stream c w = (refl, record { within = w; closed = λ h. (refl, refl) })
  relay_lem [] false stream c w = (refl, record { within = w; closed = c })

  answered_step :
      (s : Completion) (out : Text) (outs : List Text)
      → pending_of s ++ bytes_of (out ∷ outs)
        ≡ pending_of (record s { rx = s.rx ++ out ∷ [] }) ++ bytes_of outs
  unfolding flatten
  answered_step s out outs =
      let b = response json into_bytes plain_text out in
      rw (bytes_of-append s.rx (out ∷ []), append-nil b)
        (sym (append_assoc (pending_of s) b (bytes_of outs))
          ∙ ap (λ x. x ++ bytes_of outs) (append_assoc (held s.stream) (bytes_of s.rx) b))

  run_lem :
      (es : List Event) (s : Completion)
      → IsOpen s
      → IsOrderly s.ended es
      → (pending_of s ++ bytes_of (answers_in es)
          ≡ (run json into_bytes plain_text es s).0
            ++ pending_of (run json into_bytes plain_text es s).1)
        × IsOpen (run json into_bytes plain_text es s).1
  unfolding run flatten
  run_lem [] s o h = (append-nil (pending_of s), o)
  run_lem (answered out ∷ es) s o h =
      let s' : Completion = record s { rx = s.rx ++ out ∷ [] } in
      let o' : IsOpen s' = record {
        within = o.within;
        closed = λ c. absurd (ground (arith, o.closed c, h.0));
      } in
      let (e, last) = run_lem es s' o' h.1 in (answered_step s out (answers_in es) ∙ e, last)
  run_lem (chat_ends ∷ es) s o h =
      run_lem es (record s { ended = true })
        (record { within = o.within; closed = λ c. ((o.closed c).0, refl) }) h
  run_lem (relays ∷ es) s o h =
      let (same, o') = relay_lem s.rx s.ended s.stream o.closed o.within in
      let (e, last) = run_lem es _ o' h in (ap (λ x. x ++ bytes_of (answers_in es)) same ∙ e, last)
  run_lem (polled remaining ∷ es) s o h =
      let a = poll_read-Answers remaining s.stream o.within h.0 in
      let s' : Completion = record s { stream = (poll_read remaining s.stream).1 } in
      let o' : IsOpen s' = record {
        within = a.within;
        closed = λ c. o.closed (sym a.closed_kept ∙ c);
      } in
      let (e, last) = run_lem es s' o' h.1 in
      let got = given (poll_read remaining s.stream).0 in
      (
        ap (λ x. (x ++ bytes_of s.rx) ++ bytes_of (answers_in es)) a.order
            ∙ ap (λ x. x ++ bytes_of (answers_in es))
                (append_assoc got (held s'.stream) (bytes_of s.rx))
            ∙ append_assoc got (pending_of s') (bytes_of (answers_in es))
            ∙ ap (λ x. got ++ x) e
            ∙ sym (append_assoc got _ _),
        last,
      )

  new-IsOpen : IsOpen new
  unfolding new Reader.new
  new-IsOpen = record { within = tt; closed = λ h. absurd (ground (arith, h)) }

  end-closed : (c : Bool) → at_end c ≡ ready [] → c ≡ true
  end-closed true h = refl
  end-closed false h = absurd (ground (arith, h))

  body_lem :
      (es : List Event) (remaining : ℕ)
      → IsOrderly false es
      → 0 < remaining
      → (poll_read remaining (run json into_bytes plain_text es new).1.stream).0 ≡ ready []
      → ((run json into_bytes plain_text es new).0 ≡ bytes_of (answers_in es))
        × ((run json into_bytes plain_text es new).1.ended ≡ true)
  unfolding new Reader.new flatten
  body_lem es remaining h room last =
      let (e, o) = run_lem es new new-IsOpen h in
      let s = (run json into_bytes plain_text es new).1 in
      let a = poll_read-Answers remaining s.stream o.within room in
      let (empty, told) = a.waits (ap given last) in
      let (relayed, ended) = o.closed (end-closed s.stream.closed (sym told ∙ last)) in
      (sym (e ∙ rw (empty, relayed) (append-nil (run json into_bytes plain_text es new).0)), ended)

module _ (json : Text → Text) (into_bytes : Text → List ℕ) where
  response-plain :
      (plain_text : Option Bool)
      → plain_text ≡ some true
      → response json into_bytes plain_text ≡ into_bytes
  unfolding response
  response-plain none e = absurd (ground (arith, e))
  response-plain (some false) e = absurd (ground (arith, e))
  response-plain (some true) e = fun_ext λ out. refl

  response-json :
      (plain_text : Option Bool)
      → plain_text ≢ some true
      → response json into_bytes plain_text ≡ (λ out. into_bytes (json out))
  unfolding response
  response-json none ne = fun_ext λ out. refl
  response-json (some false) ne = fun_ext λ out. refl
  response-json (some true) ne = absurd (ne refl)

  -- Let a chat answer with texts and end, the relaying task do its rounds and the client poll the
  -- body, in any order in which the chat answers no more once it has ended and each poll has room for
  -- a byte. Where the next poll tells the client the end of the body, the chat has ended, and the
  -- client got all its texts, in their order: the bytes of the texts as they are where plain text was
  -- asked for, and otherwise those of the json that each is put into.
  pub run-end_of_body :
      (plain_text : Option Bool) (es : List Event) (remaining : ℕ)
      → IsOrderly false es
      → 0 < remaining
      → (poll_read remaining (run json into_bytes plain_text es new).1.stream).0 ≡ ready []
      → (plain_text ≡ some true
          → (run json into_bytes plain_text es new).0 ≡ flatten (map into_bytes (answers_in es)))
        × (plain_text ≢ some true
            → (run json into_bytes plain_text es new).0
              ≡ flatten (map (λ out. into_bytes (json out)) (answers_in es)))
        × ((run json into_bytes plain_text es new).1.ended ≡ true)
  run-end_of_body plain_text es remaining h room last =
      let (body, ended) = body_lem json into_bytes plain_text es remaining h room last in
      (
        λ plain. body ∙ ap (λ f. flatten (map f (answers_in es))) (response-plain plain_text plain),
        λ other. body ∙ ap (λ f. flatten (map f (answers_in es))) (response-json plain_text other),
        ended,
      )
