-- ===== src/Router/Fallback.antt =====
-- models/router.py: which candidate answers a call, and which one a stream comes from.
use mathlib.Core.Path.{subst}
use cogito_agent.Prelude.{
  ℕ, suc, ◌+◌, ◌≡◌, ◌⊎◌, inl, inr, sym, ap, refl, String, none, some, List, [], ◌∷◌, ◌++◌, arith,
  length, length-append, Option-cases,
}
use cogito_agent.Gate.Judge.{Floats}
use cogito_agent.Router.{Candidate}
use cogito_agent.Router.Adapter.{
  RouterWorld, AdapterState, ChatResult, response, all_failed, reply_error, named, chat_loop,
  note_failure, note_success, at_candidate, failure_text,
}
use cogito_agent.Router.Stream.{stream_one, Streamed, Streams, Attempt, attempt, stream_loop}

module _ (F : Floats) (W : RouterWorld F) where
  -- Each candidate of the list fails, from the attempt of the number on.
  abbrev pub AllFail : ℕ → List (Candidate F) → Type 0
  AllFail n [] = Unit
  AllFail n (c ∷ cs) = ((e : String) × (reply_error (W.call n c) ≡ some e)) × AllFail (suc n) cs

  -- The candidate after `before` is the first that answers.
  abbrev pub FirstAnswer : ℕ → List (Candidate F) → AdapterState F × ChatResult → Type 0
  FirstAnswer n cs out =
      (before : List (Candidate F)) × (c : Candidate F) × (after : List (Candidate F)) × (cs
        ≡ before ++ c ∷ after)
      × AllFail n before
      × (reply_error (W.call (n + length before) c) ≡ none)
      × (out.1 ≡ response (named F c (W.call (n + length before) c)))
      × (out.0.model ≡ c.model)

  later :
      (n : ℕ) (x : Candidate F) (cs : List (Candidate F)) (e : String)
      (out : AdapterState F × ChatResult)
      → reply_error (W.call n x) ≡ some e
      → FirstAnswer (suc n) cs out
      → FirstAnswer n (x ∷ cs) out
  later n x cs e out fails (before, c, after, split, failed, ok, result, model) =
      let moved : suc n + length before ≡ n + suc (length before) = omega arith in
      (
        x ∷ before,
        c,
        after,
        ap (λ ys. x ∷ ys) split,
        ((e, fails), failed),
        subst (λ i. reply_error (W.call i c) ≡ none) moved ok,
        subst (λ i. out.1 ≡ response (named F c (W.call i c))) moved result,
        model,
      )

  loop_won :
      (n : ℕ) (c : Candidate F) (cs : List (Candidate F)) (errors : List String)
      (s : AdapterState F)
      → reply_error (W.call n c) ≡ none
      → chat_loop F W n (c ∷ cs) errors s
        ≡ (note_success F n (length cs) c (at_candidate F c s), response (named F c (W.call n c)))
  unfolding chat_loop
  loop_won n c cs errors s ok = rw (chat_loop, ok) refl

  loop_lost :
      (n : ℕ) (c : Candidate F) (cs : List (Candidate F)) (errors : List String)
      (s : AdapterState F) (e : String)
      → reply_error (W.call n c) ≡ some e
      → chat_loop F W n (c ∷ cs) errors s
        ≡ chat_loop F W
            (suc n)
            cs
            (errors ++ failure_text F c e ∷ [])
            (note_failure F W n (length cs) c e (at_candidate F c s))
  unfolding chat_loop
  loop_lost n c cs errors s e fails = rw (chat_loop, fails) refl

  now_first :
      (n : ℕ) (c : Candidate F) (cs : List (Candidate F)) (s : AdapterState F)
      → reply_error (W.call n c) ≡ none
      → FirstAnswer n
          (c ∷ cs)
          (note_success F n (length cs) c (at_candidate F c s), response (named F c (W.call n c)))
  unfolding note_success
  now_first n c cs s ok =
      let here : n ≡ n + 0 = omega arith in
      (
        [],
        c,
        cs,
        refl,
        tt,
        subst (λ i. reply_error (W.call i c) ≡ none) here ok,
        subst (λ i. response (named F c (W.call n c)) ≡ response (named F c (W.call i c))) here
            refl,
        refl,
      )

  -- The loop of `chat` over any candidates: either every one fails, in its order, and the exception
  -- lists as many errors as there were candidates, or the response is that of the first that answers.
  pub chat_loop_exact :
      (n : ℕ) (cs : List (Candidate F)) (errors : List String) (s : AdapterState F)
      → let out = chat_loop F W n cs errors s in
        (AllFail n cs
          × ((es : List String) × (out.1 ≡ all_failed es)
              × (length es ≡ length errors + length cs)))
        ⊎ FirstAnswer n cs out
  unfolding chat_loop
  chat_loop_exact n [] errors s = inl (tt, (errors, refl, omega arith))
  chat_loop_exact n (c ∷ cs) errors s = elim (Option-cases (reply_error (W.call n c))) [
    | inl ok ↦ rw (loop_won n c cs errors s ok) (inr (now_first n c cs s ok))
    | inr (e, fails) ↦
        let errors' = errors ++ failure_text F c e ∷ [] in
        let s' = note_failure F W n (length cs) c e (at_candidate F c s) in
        let out = chat_loop F W (suc n) cs errors' s' in
        rw (loop_lost n c cs errors s e fails) (elim (chat_loop_exact (suc n) cs errors' s') [
          | inl (failed, (es, result, count)) ↦ inl (
            ((e, fails), failed),
            (es, result, omega (arith, count, length-append errors (failure_text F c e ∷ []))),
          )
          | inr first ↦ inr (later n c cs e out fails first)
        ])
  ]

module _ (F : Floats) (W : RouterWorld F) (T : Streams F) where
  -- The candidates of the list fail before their first chunk.
  abbrev pub AllSilent : ℕ → List (Candidate F) → Type 0
  AllSilent n [] = Unit
  AllSilent n (c ∷ cs) = ((e : String) × (attempt F W T n c ≡ ([], some e))) × AllSilent (suc n) cs

  -- The chunks are those of one candidate, after others that failed before their first one.
  abbrev pub FromOne : ℕ → List (Candidate F) → List String → Type 0
  FromOne n cs out =
      (before : List (Candidate F)) × (c : Candidate F) × (after : List (Candidate F)) × (cs
        ≡ before ++ c ∷ after)
      × AllSilent n before
      × (out ≡ (attempt F W T (n + length before) c).0)

  later_stream :
      (n : ℕ) (x : Candidate F) (cs : List (Candidate F)) (e : String) (out : List String)
      → attempt F W T n x ≡ ([], some e)
      → FromOne (suc n) cs out
      → FromOne n (x ∷ cs) out
  later_stream n x cs e out fails (before, c, after, split, silent, result) =
      let moved : suc n + length before ≡ n + suc (length before) = omega arith in
      (
        x ∷ before,
        c,
        after,
        ap (λ ys. x ∷ ys) split,
        ((e, fails), silent),
        subst (λ i. out ≡ (attempt F W T i c).0) moved result,
      )

  this_stream :
      (n : ℕ) (c : Candidate F) (cs : List (Candidate F)) (out : List String)
      → out ≡ (attempt F W T n c).0
      → FromOne n (c ∷ cs) out
  this_stream n c cs out result =
      let here : n ≡ n + 0 = omega arith in
      ([], c, cs, refl, tt, subst (λ i. out ≡ (attempt F W T i c).0) here result)

  abbrev OneSource : ℕ → List (Candidate F) → List String → Type 0
  OneSource n cs out = (AllSilent n cs × (out ≡ [])) ⊎ FromOne n cs out

  one_more :
      (n : ℕ) (c : Candidate F) (cs : List (Candidate F)) (e : String) (out : List String)
      → attempt F W T n c ≡ ([], some e)
      → OneSource (suc n) cs out
      → OneSource n (c ∷ cs) out
  one_more n c cs e out h (inl (silent, none_yet)) = inl (((e, h), silent), none_yet)
  one_more n c cs e out h (inr one) = inr (later_stream n c cs e out h one)

  stream_one-OneSource :
      (n left : ℕ) (c : Candidate F) (cs : List (Candidate F)) (s : AdapterState F)
      (rest : String → Streamed F) (a : Attempt)
      → attempt F W T n c ≡ a
      → ((e : String) → OneSource (suc n) cs (rest e).1)
      → OneSource n (c ∷ cs) (stream_one F W n left c s rest a).1
  stream_one-OneSource n left c cs s rest (chunks, none) h later =
      inr (this_stream n c cs chunks (sym (ap (λ (x : Attempt). x.0) h)))
  stream_one-OneSource n left c cs s rest (chunk ∷ more, some e) h later =
      inr (this_stream n c cs (chunk ∷ more) (sym (ap (λ (x : Attempt). x.0) h)))
  stream_one-OneSource n left c cs s rest ([], some e) h later =
      one_more n c cs e (rest e).1 h (later e)

  -- The chunks of a stream over any candidates all come from one candidate: an attempt that has
  -- yielded a chunk is never followed by another. There are none where each candidate fails before its
  -- first chunk.
  pub stream_loop_one :
      (n : ℕ) (cs : List (Candidate F)) (errors : List String) (s : AdapterState F)
      → let out = stream_loop F W T n cs errors s in
        (AllSilent n cs × (out.1 ≡ [])) ⊎ FromOne n cs out.1
  unfolding stream_loop
  stream_loop_one n [] errors s = inl (tt, refl)
  stream_loop_one n (c ∷ cs) errors s =
      stream_one-OneSource n (length cs) c cs (at_candidate F c s) _ (attempt F W T n c) refl
        (λ e. stream_loop_one (suc n) cs _ _)
