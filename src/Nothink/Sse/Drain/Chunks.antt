-- ===== src/Nothink/Sse/Drain/Chunks.antt =====
-- How the bytes of a stream are cut makes no difference to the events that are read of them.
use localx_llama.Prelude.{
  map, All, zero, suc, Option, [], ◌∷◌, append-nil, append_assoc, bind-eq-some, ℕ, ◌<◌, ◌≡◌, refl,
  inl, inr, none, some, List, ◌++◌, Option-cases, length, length-append, sym, ◌∙◌, arith,
}
use mathlib.Core.Path.{subst}
use localx_llama.Text.{Text, split_once, concat}
use localx_llama.Text.Find.{split_once-append, split_once-eq}
use localx_llama.Json.{Value}
use localx_llama.Nothink.Sse.{EventState, transform_event, transform_events}
use localx_llama.Nothink.Sse.Drain.{
  SseThinkFilter, blank_line, take_event, drain_loop, push_chunk, push_chunks,
}

-- No complete event is left.
abbrev pub IsDrained : SseThinkFilter → Type 0
IsDrained f = take_event f.pending ≡ none

-- Bytes that are one event, whatever follows.
abbrev pub IsEvent : List ℕ → Type 0
IsEvent e = (r : List ℕ) → take_event (e ++ r) ≡ some (e, r)

pub no_event : take_event [] ≡ none
unfolding take_event split_once
no_event = refl

pub took :
    (s p q : List ℕ)
    → split_once blank_line s ≡ some (p, q)
    → take_event s ≡ some (p ++ blank_line, q)
unfolding take_event
took s p q h = rw h refl

took_cases :
    (s e q : List ℕ)
    → take_event s ≡ some (e, q)
    → (p : List ℕ) × (split_once blank_line s ≡ some (p, q)) × (e ≡ p ++ blank_line)
unfolding take_event
took_cases s e q h =
    let ((p, r), found, same) = bind-eq-some (split_once blank_line s) _ h in (p, cc, cc)

take_event-append :
    (s r e q : List ℕ) → take_event s ≡ some (e, q) → take_event (s ++ r) ≡ some (e, q ++ r)
take_event-append s r e q h =
    let (p, found, eq) = took_cases s e q h in
    rw eq (took (s ++ r) p (q ++ r) (split_once-append blank_line s r p q found))

take_event-shorter : (s e q : List ℕ) → take_event s ≡ some (e, q) → length q < length s
take_event-shorter s e q h =
    let (p, found, _) = took_cases s e q h in
    rw (split_once-eq blank_line s p q found) (omega (arith, length-append p (blank_line ++ q)))

module _ (parse : Text → Option Value) (print : Value → Text) (decode : List ℕ → Text) where
  abbrev event_of : List ℕ → EventState → Text × EventState
  event_of e st = transform_event parse print (decode e) st

  -- `Drains pending st o f`: the complete events of the pending bytes show `o` and leave `f`.
  data Drains : List ℕ → EventState → Text → SseThinkFilter → Type 0 where
    rests :
        {s : List ℕ} {st : EventState}
        → take_event s ≡ none
        → Drains s st [] (record { pending = s; events = st })
    takes :
        {s e q : List ℕ} {st : EventState} {o : Text} {f : SseThinkFilter}
        → take_event s ≡ some (e, q)
        → Drains q (event_of e st).1 o f
        → Drains s st ((event_of e st).0 ++ o) f

  loop-rests :
      (fuel : ℕ) (s : List ℕ) (st : EventState)
      → take_event s ≡ none
      → drain_loop parse print decode (suc fuel) s st
        ≡ some ([], record { pending = s; events = st })
  unfolding drain_loop
  loop-rests fuel s st h = rw (h, drain_loop) refl

  loop-takes :
      (fuel : ℕ) (s e q : List ℕ) (st : EventState) (o : Text) (f : SseThinkFilter)
      → take_event s ≡ some (e, q)
      → drain_loop parse print decode fuel q (event_of e st).1 ≡ some (o, f)
      → drain_loop parse print decode (suc fuel) s st ≡ some ((event_of e st).0 ++ o, f)
  unfolding drain_loop
  loop-takes fuel s e q st o f h k = rw (h, drain_loop) (rw k refl)

  -- With fuel for its bytes the loop ends, and no complete event is left.
  drain_loop-Drains :
      (fuel : ℕ) (s : List ℕ) (st : EventState)
      → length s < fuel
      → (o : Text) × (f : SseThinkFilter) × (drain_loop parse print decode fuel s st ≡ some (o, f))
        × Drains s st o f
        × IsDrained f
  drain_loop-Drains zero s st lt = absurd (omega arith)
  drain_loop-Drains (suc fuel) s st lt = elim (Option-cases (take_event s)) [
    | inl h ↦ ([], record { pending = s; events = st }, loop-rests fuel s st h, rests h, h)
    | inr ((e, q), h) ↦
        let (o, f, run, d, done) =
          drain_loop-Drains fuel q (event_of e st).1 (omega (arith, take_event-shorter s e q h)) in
        ((event_of e st).0 ++ o, f, loop-takes fuel s e q st o f h run, takes h d, done)
  ]

  Drains-drain_loop :
      (fuel : ℕ) {s : List ℕ} {st : EventState} {o : Text} {f : SseThinkFilter}
      → length s < fuel
      → Drains s st o f
      → drain_loop parse print decode fuel s st ≡ some (o, f)
  Drains-drain_loop zero lt d = absurd (omega arith)
  Drains-drain_loop (suc fuel) {s} {st} lt (rests h) = loop-rests fuel s st h
  Drains-drain_loop (suc fuel) {s} {st} lt (takes {e} {q} {o} {f} h d) =
      loop-takes fuel s e q st o f h
        (Drains-drain_loop fuel (omega (arith, take_event-shorter s e q h)) d)

  Drains-append :
      (r : List ℕ) {s : List ℕ} {st : EventState} {o o' : Text} {f f' : SseThinkFilter}
      → Drains s st o f
      → Drains (f.pending ++ r) f.events o' f'
      → Drains (s ++ r) st (o ++ o') f'
  Drains-append r (rests h) d' = d'
  Drains-append r {s} {st} {o'} {f'} (takes {e} {q} {o} h d) d' =
      subst (λ x. Drains (s ++ r) st x f') (sym (append_assoc (event_of e st).0 o o'))
        (takes (take_event-append s r e q h) (Drains-append r d d'))

  chunk-Drains :
      (chunk : List ℕ) (f : SseThinkFilter)
      → (o : Text) × (f' : SseThinkFilter) × (push_chunk parse print decode chunk f ≡ some (o, f'))
        × Drains (f.pending ++ chunk) f.events o f'
        × IsDrained f'
  unfolding push_chunk
  chunk-Drains chunk f =
      drain_loop-Drains (suc (length (f.pending ++ chunk))) (f.pending ++ chunk) f.events
        (omega arith)

  -- A push ends on every chunk and in every state, and leaves no complete event pending.
  pub push_chunk-IsDrained :
      (chunk : List ℕ) (f : SseThinkFilter)
      → (o : Text) × (f' : SseThinkFilter) × (push_chunk parse print decode chunk f ≡ some (o, f'))
        × (take_event f'.pending ≡ none)
  push_chunk-IsDrained chunk f =
      let (o, f', run, _, done) = chunk-Drains chunk f in (o, f', run, done)

  pub chunks-step :
      (chunk : List ℕ) (chunks : List (List ℕ)) (f f' f'' : SseThinkFilter) (o rest : Text)
      → push_chunk parse print decode chunk f ≡ some (o, f')
      → push_chunks parse print decode chunks f' ≡ some (rest, f'')
      → push_chunks parse print decode (chunk ∷ chunks) f ≡ some (o ++ rest, f'')
  unfolding push_chunks
  chunks-step chunk chunks f f' f'' o rest h k = rw h (rw k refl)

  chunks_drain :
      (chunks : List (List ℕ)) (f : SseThinkFilter)
      → IsDrained f
      → (o : Text) × (f' : SseThinkFilter) × (push_chunks parse print decode chunks f
          ≡ some (o, f'))
        × Drains (f.pending ++ concat chunks) f.events o f'
  chunks_drain [] f done = (
    [],
    f,
    unfold push_chunks in refl,
    subst (λ x. Drains x f.events [] f) (sym (append-nil f.pending)) (rests done),
  )
  chunks_drain (chunk ∷ chunks) f done =
      let (o, f', run, d, done') = chunk-Drains chunk f in
      let (o', f'', run', d') = chunks_drain chunks f' done' in
      (
        o ++ o',
        f'',
        chunks-step chunk chunks f f' f'' o o' run run',
        subst (λ x. Drains x f.events (o ++ o') f'') (append_assoc f.pending chunk (concat chunks))
            (Drains-append (concat chunks) d d'),
      )

  -- A filter that has no complete event pending gives for a list of chunks the text, and comes to
  -- the state, that it does for their concatenation pushed at once.
  pub push_chunks-concat :
      (chunks : List (List ℕ)) (f : SseThinkFilter)
      → take_event f.pending ≡ none
      → push_chunks parse print decode chunks f ≡ push_chunk parse print decode (concat chunks) f
  push_chunks-concat chunks f done =
      let (o, f', run, d) = chunks_drain chunks f done in
      run
      ∙ sym (
          unfold push_chunk in
          Drains-drain_loop (suc (length (f.pending ++ concat chunks))) (omega arith) d)

  events_drain :
      (events : List (List ℕ)) (st : EventState)
      → All IsEvent events
      → Drains (concat events) st (transform_events parse print (map decode events) st).0 (record {
        pending = [];
        events = (transform_events parse print (map decode events) st).1;
      })
  unfolding transform_events
  events_drain [] st h = rests no_event
  events_drain (e ∷ events) st (h, hs) =
      takes (h (concat events)) (events_drain events (event_of e st).1 hs)

  -- Whole events, cut in any chunks, are transformed in order.
  pub push_chunks-events :
      (chunks events : List (List ℕ)) (st : EventState)
      → All IsEvent events
      → concat chunks ≡ concat events
      → push_chunks parse print decode chunks (record { pending = []; events = st })
        ≡ some (
          (transform_events parse print (map decode events) st).0,
          record { pending = []; events = (transform_events parse print (map decode events) st).1 },
        )
  unfolding push_chunk
  push_chunks-events chunks events st h same =
      push_chunks-concat chunks (record { pending = []; events = st }) no_event
      ∙ rw same (
          Drains-drain_loop (suc (length (concat events))) (omega arith) (events_drain events st h))
