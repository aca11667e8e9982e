-- ===== src/SkipList/Insert.antt =====
-- Inserting into the skip list (crates/flushdb-engine/src/skiplist.rs) puts the entry in front of
-- the first one that does not come before it, and the structure stays linked.
use flushdb.Base.{
  ℕ, ◌≡◌, ◌≢◌, refl, sym, ◌∙◌, Bool, true, false, List, [], ◌∷◌, Option, none, some, arith, inl,
  inr, Bool-cases, Option-cases, ◌==◌, ◌⊎◌, if◌then◌else◌,
}
use mathlib.Core.Path.{subst}
use flushdb.Entry.{MemtableEntry}
use flushdb.SkipList.{SkipNode, next_of, entry_at}
use flushdb.SkipList.Chain.{
  Chain, first_index, In, Linked, Skip, here, over, Linked-next_zero, Linked-next_member,
  Linked-entry,
}
use flushdb.SkipList.Search.{Blocked}
use flushdb.SkipList.Chain.{Linked-fresh}

-- The chain with the new node in front of the first entry that fails the test.
abbrev pub insert_chain : (MemtableEntry → Bool) → ℕ → MemtableEntry → Chain → Chain
insert_chain before new_idx entry [] = (new_idx, entry) ∷ []
insert_chain before new_idx entry ((j, e) ∷ rest) =
    let tail = insert_chain before new_idx entry rest in
    if before e then (j, e) ∷ tail else (new_idx, entry) ∷ (j, e) ∷ rest

-- `u` is `i`, or the last node of a run of entries behind it that pass.
abbrev pub Lead : (MemtableEntry → Bool) → ℕ → Chain → ℕ → Type 0
Lead before i [] u = u ≡ i
Lead before i ((j, e) ∷ rest) u = (u ≡ i) ⊎ ((before e ≡ true) × Lead before j rest u)

pub Skip-Lead :
    {before : MemtableEntry → Bool} {i u : ℕ} {r after : Chain}
    → Skip before i r u after
    → Lead before i r u
Skip-Lead {i = i} {r = []} here = refl
Skip-Lead {i = i} {r = x ∷ r} here = inl refl
Skip-Lead (over h p) = inr (h, Skip-Lead p)

true_ne_false : {b : Bool} → b ≡ true → b ≡ false → ⊥
true_ne_false h k = cc

module _ (before : MemtableEntry → Bool) (old new : List SkipNode) (new_idx : ℕ)
    (entry : MemtableEntry) (prev_at : ℕ → Option ℕ)
    (linked : (i l : ℕ)
      → next_of new i l ≡ (elim (prev_at l) [
        | none ↦ if new_idx == i then none else next_of old i l
        | some p ↦
            if new_idx == i
            then next_of old p l
            else if p == i
            then some new_idx
            else next_of old i l
      ]))
    (same_entries : (j : ℕ) (e : MemtableEntry) → entry_at old j ≡ some e → entry_at new j ≡ some e)
    (new_entry : entry_at new new_idx ≡ some entry) (fresh : entry_at old new_idx ≡ none) where
  next_other :
      (i l : ℕ)
      → i ≢ new_idx
      → ((p : ℕ) → prev_at l ≡ some p → p ≢ i)
      → next_of new i l ≡ next_of old i l
  next_other i l n np = elim (Option-cases (prev_at l)) [
    | inl o ↦ ground (arith, linked i l)
    | inr (p, o) ↦ ground (arith, linked i l, np p o)
  ]

  next_prev : (i l : ℕ) → i ≢ new_idx → prev_at l ≡ some i → next_of new i l ≡ some new_idx
  next_prev i l n o = ground (arith, linked i l)

  next_new-none : (l : ℕ) → prev_at l ≡ none → next_of new new_idx l ≡ none
  next_new-none l o = ground (arith, linked new_idx l)

  next_new-some : (l p : ℕ) → prev_at l ≡ some p → next_of new new_idx l ≡ next_of old p l
  next_new-some l p o = ground (arith, linked new_idx l)

  -- A pointer of an old node leads to the new one or where it led before.
  next_cases :
      (i l t : ℕ)
      → i ≢ new_idx
      → next_of new i l ≡ some t
      → (t ≡ new_idx) ⊎ (next_of old i l ≡ some t)
  next_cases i l t n h = elim (Option-cases (prev_at l)) [
    | inl o ↦ inr (sym (next_other i l n (λ p q. cc)) ∙ h)
    | inr (p, o) ↦ ground (arith, linked i l)
  ]

  In-ne-new : (i : ℕ) (rest : Chain) (t : ℕ) → Linked old i rest → In t rest → t ≢ new_idx
  In-ne-new i rest t g m q = let (e, h) = Linked-entry old i rest t g m in cc

  -- Behind the new node nothing changes.
  untouched :
      (i : ℕ) (rest : Chain)
      → i ≢ new_idx
      → ((l p : ℕ) → prev_at l ≡ some p → (p ≡ i) ⊎ In p rest → ⊥)
      → Linked old i rest
      → Linked new i rest
  untouched i [] n hp g = λ l. next_other i l n (λ p o e. hp l p o (inl e)) ∙ g l
  untouched i ((j, e) ∷ rest) n hp g =
      let same = λ (l : ℕ). next_other i l n (λ p o q. hp l p o (inl q)) in
      (
        same 0 ∙ g.0,
        λ l t h. g.1 l t (sym (same l) ∙ h),
        g.2,
        same_entries j e (g.3),
        untouched j rest (In-ne-new i ((j, e) ∷ rest) j g (inl refl)) (λ l p o m. hp l p o (inr m))
            (g.4),
      )

  In-insert_new : (rest : Chain) → In new_idx (insert_chain before new_idx entry rest)
  In-insert_new [] = inl refl
  In-insert_new ((j, e) ∷ rest) = elim (Bool-cases (before e)) [
    | inl b ↦ rw b (inr (In-insert_new rest))
    | inr b ↦ rw b (inl refl)
  ]

  In-insert_old : (rest : Chain) (t : ℕ) → In t rest → In t (insert_chain before new_idx entry rest)
  In-insert_old [] t m = absurd m
  In-insert_old ((j, e) ∷ rest) t m = elim (Bool-cases (before e)) [
    | inl b ↦ rw b (elim m [ inl p ↦ inl p | inr q ↦ inr (In-insert_old rest t q) ])
    | inr b ↦ rw b (inr m)
  ]

  In-insert_inv :
      (rest : Chain) (t : ℕ)
      → In t (insert_chain before new_idx entry rest)
      → (t ≡ new_idx) ⊎ In t rest
  In-insert_inv [] t (inl p) = inl p
  In-insert_inv [] t (inr m) = absurd m
  In-insert_inv ((j, e) ∷ rest) t m = elim (Bool-cases (before e)) [
    | inl b ↦ elim (rw b at m) [
      | inl p ↦ inr (inl p)
      | inr q ↦ elim (In-insert_inv rest t q) [ inl p ↦ inl p | inr r ↦ inr (inr r) ]
    ]
    | inr b ↦ rw b at m
  ]

  module _ (p0 : ℕ) (prev_zero : prev_at 0 ≡ some p0) where
    insert_here :
        (i : ℕ) (rest : Chain)
        → i ≢ new_idx
        → Linked old i rest
        → p0 ≡ i
        → ((l p : ℕ) → prev_at l ≡ some p → In p rest → ⊥)
        → ((l p t : ℕ) → prev_at l ≡ some p → next_of old p l ≡ some t → In t rest)
        → Linked new i ((new_idx, entry) ∷ rest)
    insert_here i rest n g here_zero away leads = (
      next_prev i 0 n (rw here_zero at prev_zero),
      λ l t h. elim (next_cases i l t n h) [
        | inl e ↦ inl e
        | inr o ↦ inr (Linked-next_member old i rest l t g o)
      ],
      λ t m. elim m [ inl e ↦ λ q. n (q ∙ e) | inr k ↦ Linked-fresh old i rest t g k ],
      new_entry,
      behind rest g away leads,
    )
      where
        first : (rest : Chain) → Linked old i rest → next_of new new_idx 0 ≡ first_index rest
        first rest g = next_new-some 0 p0 prev_zero ∙ rw here_zero (Linked-next_zero old i rest g)

        behind :
            (rest : Chain)
            → Linked old i rest
            → ((l p : ℕ) → prev_at l ≡ some p → In p rest → ⊥)
            → ((l p t : ℕ) → prev_at l ≡ some p → next_of old p l ≡ some t → In t rest)
            → Linked new new_idx rest
        behind [] g away leads = λ l. elim (Option-cases (prev_at l)) [
          | inl o ↦ next_new-none l o
          | inr (p, o) ↦ elim (Option-cases (next_of old p l)) [
            | inl q ↦ next_new-some l p o ∙ q
            | inr (t, q) ↦ absurd (leads l p t o q)
          ]
        ]
        behind ((j, e) ∷ r) g away leads = (
          first ((j, e) ∷ r) g,
          λ l t h. elim (Option-cases (prev_at l)) [
            | inl o ↦ cc (next_new-none l o)
            | inr (p, o) ↦ leads l p t o (sym (next_new-some l p o) ∙ h)
          ],
          λ t m q. In-ne-new i ((j, e) ∷ r) t g m (sym q),
          same_entries j e (g.3),
          untouched j r (In-ne-new i ((j, e) ∷ r) j g (inl refl)) away (g.4),
        )

    module _ (blocked : (l p : ℕ) → prev_at l ≡ some p → Blocked before old p l) where
      pub insert-Linked :
          (i : ℕ) (rest : Chain)
          → i ≢ new_idx
          → Linked old i rest
          → Lead before i rest p0
          → ((l p : ℕ) → prev_at l ≡ some p → (p ≡ i) ⊎ In p rest → Lead before i rest p)
          → ((l p t : ℕ) → prev_at l ≡ some p → next_of old p l ≡ some t → In t rest)
          → Linked new i (insert_chain before new_idx entry rest)
      insert-Linked i [] n g lead leads_all targets =
          insert_here i [] n g lead (λ l p o m. m) targets
      insert-Linked i ((j, e) ∷ rest) n g lead leads_all targets = elim (Bool-cases (before e)) [
        | inr b ↦ rw b (
            insert_here i ((j, e) ∷ rest) n g (elim lead [ inl p ↦ p | inr (q, r) ↦ absurd (cc) ])
              (λ l p o m. elim (leads_all l p o (inr m)) [
                | inl q ↦ g.2 p m (sym q)
                | inr (q, r) ↦ cc
              ])
              targets)
        | inl b ↦
            let passed = λ (l p : ℕ) (o : prev_at l ≡ some p) (h : next_of old p l ≡ some j).
              true_ne_false b (blocked l p o j e h (g.3)) in
            rw b (
              next_other i 0 n (λ p o q.
                    absurd (passed 0 p o (let h : next_of old p 0 ≡ some j = cc (g.0) in h)))
                  ∙ g.0,
              λ l t h. elim (next_cases i l t n h) [
                | inl q ↦ inr (
                    subst (λ x. In x (insert_chain before new_idx entry rest)) (sym q)
                      (In-insert_new rest))
                | inr q ↦ elim (g.1 l t q) [ inl r ↦ inl r | inr r ↦ inr (In-insert_old rest t r) ]
              ],
              λ t m. elim m [
                | inl q ↦ g.2 t (inl q)
                | inr q ↦ elim (In-insert_inv rest t q) [
                  | inl r ↦ λ w. n (w ∙ r)
                  | inr r ↦ g.2 t (inr r)
                ]
              ],
              same_entries j e (g.3),
              insert-Linked j rest (In-ne-new i ((j, e) ∷ rest) j g (inl refl)) (g.4)
                  (elim lead [
                    | inl q ↦
                        absurd (
                          passed 0 p0 prev_zero (let h : next_of old p0 0 ≡ some j = cc (g.0) in h))
                    | inr (x, r) ↦ r
                  ])
                  (λ l p o m. elim (leads_all l p o (inr m)) [
                    | inl q ↦ absurd (g.2 p m (sym q))
                    | inr (x, r) ↦ r
                  ])
                  (λ l p t o h. elim (targets l p t o h) [
                    | inl q ↦ absurd (passed l p o (let k : next_of old p l ≡ some j = cc in k))
                    | inr r ↦ r
                  ]),
            )
      ]
