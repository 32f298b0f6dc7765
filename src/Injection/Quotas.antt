-- ===== src/Injection/Quotas.antt =====
-- retrieval/injection.py: the quotas of the sections, and the length of a truncated one.
use Prim.Native.String.{◌++◌ as append, count}
use cogito_agent.Prelude.{
  ℕ, ◌+◌, ◌≤◌, ◌≡◌, ◌⊎◌, inl, inr, refl, String, true, false, ◌||◌, List, [], ◌∷◌, ◌++◌, ◌=s◌,
  =s_refl, sym, ltb, leb, length, arith, if-cases, ◌∙◌, sort_by,
}
use cogito_agent.Injection.{
  Retrieved, InjectionBuilder, Thresholds, Section, Picked, enter, pick_one, pick_all, id_of,
  text_of, is_forced, is_too_low, is_norm, is_event, format_line, ranks_before,
}
use cogito_agent.Injection.Build.{no_picks, picked_from, fit_lines, truncate_section}

-- A section within its quota.
abbrev pub IsFull : ℕ → Section → Type 0
IsFull most s = (length s.entries ≡ s.size) × (s.size ≤ most)

length-append_one : {A : Type 0} (xs : List A) (x : A) → length (xs ++ x ∷ []) ≡ length xs + 1
length-append_one [] x = refl
length-append_one (y ∷ xs) x = omega (arith, length-append_one xs x)

module _ {F : Type 0} (B : InjectionBuilder F) (T : Thresholds F) where
  -- All three sections are.
  abbrev pub InQuota : Picked → Type 0
  InQuota p =
      IsFull B.max_forced p.forced
      × IsFull B.max_procedure_preference p.norms
      × IsFull B.max_event_profile p.events

  entered :
      (i : Retrieved F) (most : ℕ) (s : Section)
      → leb most s.size ≡ false
      → IsFull most s
      → IsFull most (enter B T i s)
  entered i most s h full =
      let one = length-append_one s.entries (id_of B T i, format_line B T i) in
      (omega (arith, one, full.0), ground (arith, h))

  pick_one-InQuota : (i : Retrieved F) (p : Picked) → InQuota p → InQuota (pick_one B T i p)
  unfolding pick_one
  pick_one-InQuota i p h =
      if-cases InQuota (id_of B T i =s "" || text_of B T i =s "") _ _ (λ e. h)
        (λ e.
          if-cases InQuota (is_forced B T i) _ _
            (λ f.
              if-cases InQuota (leb B.max_forced p.forced.size) _ _ (λ k. h)
                (λ k. (entered i B.max_forced p.forced k h.0, h.1, h.2)))
            (λ f.
              if-cases InQuota (is_too_low B T i) _ _ (λ l. h)
                (λ l.
                  if-cases InQuota (is_norm B T i.mem_type) _ _
                    (λ n.
                      if-cases InQuota (leb B.max_procedure_preference p.norms.size) _ _ (λ k. h)
                        (λ k. (h.0, entered i B.max_procedure_preference p.norms k h.1, h.2)))
                    (λ n.
                      if-cases InQuota (is_event B T i.mem_type) _ _
                        (λ v.
                          if-cases InQuota (leb B.max_event_profile p.events.size) _ _ (λ k. h)
                            (λ k. (h.0, h.1, entered i B.max_event_profile p.events k h.2)))
                        (λ v. h)))))

  pick_all-InQuota :
      (is : List (Retrieved F)) (p : Picked) → InQuota p → InQuota (pick_all B T is p)
  unfolding pick_all
  pick_all-InQuota [] p h = h
  pick_all-InQuota (i ∷ is) p h = pick_all-InQuota is (pick_one B T i p) (pick_one-InQuota i p h)

-- Whatever is retrieved, the sections have no more lines than their quotas: the forced ones, those of
-- procedures and preferences, and those of events and profiles.
pub quotas_kept :
    {F : Type 0} (B : InjectionBuilder F) (T : Thresholds F) (items : List (Retrieved F))
    → let p = picked_from B T items in
      (length p.forced.entries ≤ B.max_forced)
      × (length p.norms.entries ≤ B.max_procedure_preference)
      × (length p.events.entries ≤ B.max_event_profile)
quotas_kept B T items =
    let (forced, norms, events) =
      pick_all-InQuota B T (sort_by (ranks_before B T) items) no_picks
        ((refl, omega arith), (refl, omega arith), (refl, omega arith)) in
    (
      omega (arith, forced.0, forced.1),
      omega (arith, norms.0, norms.1),
      omega (arith, events.0, events.1),
    )

fit_lines_le :
    (budget : ℕ) (result : String) (ls : List String)
    → (fit_lines budget result ls ≡ result) ⊎ (count (fit_lines budget result ls) ≤ budget)
unfolding fit_lines
fit_lines_le budget result [] = inl refl
fit_lines_le budget result (l ∷ ls) =
    let candidate = append result (append "  " (append l "\n")) in
    if-cases (λ (t : String). (t ≡ result) ⊎ (count t ≤ budget)) (ltb budget (count candidate)) _ _
      (λ h. inl refl)
      (λ h. inr (elim (fit_lines_le budget candidate ls) [
        | inl same ↦ rw same (ground (arith, h))
        | inr small ↦ small
      ]))

never : {A : Type 0} → false ≡ true → A
never h = cc

-- A truncated section is within the characters that are left for it.
pub truncate_section_fits :
    (header : String) (ls : List String) (budget : ℕ)
    → count (truncate_section header ls budget) ≤ budget
unfolding truncate_section
truncate_section_fits header ls budget =
    if-cases (λ (t : String). count t ≤ budget) (fit_lines budget header ls =s header) _ _
      (λ h. omega arith)
      (λ h. elim (fit_lines_le budget header ls) [
        | inl same ↦ never (sym h ∙ rw same (=s_refl header))
        | inr small ↦ small
      ])
