-- ===== src/Events/Waiting.antt =====
-- The search of the queue of events in Source/GSDisplayServer.m against one that starts over each time.
use libs_gui.Base.{
  ℕ, zero, suc, ◌+◌, ◌≤◌, ◌≡◌, refl, sym, ap, subst, Bool, true, false, ◌&&◌, ◌||◌, List, [], ◌∷◌,
  ◌++◌, Option, none, some, if◌then◌else◌, ◌==◌, ltb, length, get_elem?, erase_idx, drop, arith,
  Bool-cases, ◌⊎◌, inl, inr,
}
use libs_gui.Events.Types.{any_event_mask}
use libs_gui.Events.Record.{Event}
use libs_gui.Events.Queue.{
  Post, Round, Outcome, returned, waits, post_event, post_all, matches, found_or, scan, look,
  get_event_from, get_event_matching_mask,
}

module _ {F : Type 0} where
  -- Whether an event is one that is asked for.
  unfoldable pub wanted : ℕ → Event F → Bool
  wanted mask e = (mask == any_event_mask) || matches mask e

  -- The first wanted event, and the queue without it.
  unfoldable pub first_wanted : ℕ → List (Event F) → Option (Event F × List (Event F))
  first_wanted mask [] = none
  first_wanted mask (e ∷ rest) =
      let later = first_wanted mask rest in
      if wanted mask e
      then some (e, rest)
      else elim later [ none ↦ none | some r ↦ some (r.0, e ∷ r.1) ]

  unfoldable pub first_or :
      Option (Event F × List (Event F)) → Bool → List (Event F) → Outcome F → Outcome F
  first_or (some r) dequeue queue otherwise = returned (some r.0) (if dequeue then r.1 else queue)
  first_or none dequeue queue otherwise = otherwise

  -- The queue is searched from its begin, before and after each run of the loop.
  unfoldable pub first_event : ℕ → Bool → List (Round F) → List (Event F) → Outcome F
  first_event mask dequeue [] queue = first_or (first_wanted mask queue) dequeue queue waits
  first_event mask dequeue (round ∷ rest) queue =
      let queue_after = post_all round.posts queue in
      let later = first_event mask dequeue rest queue_after in
      first_or (first_wanted mask queue) dequeue queue
        (if round.ran && round.before_limit then later else returned none queue_after)

  -- The posts of the rounds are all at the end of the queue.
  unfoldable pub AtEnd : List (Post F) → Type 0
  AtEnd [] = Unit {0}
  AtEnd (p ∷ rest) = (p.at_start ≡ false) × AtEnd rest

  unfoldable pub AllAtEnd : List (Round F) → Type 0
  AllAtEnd [] = Unit {0}
  AllAtEnd (r ∷ rest) = AtEnd r.posts × AllAtEnd rest

  -- There are as many events, and none of them is wanted.
  Passed : ℕ → ℕ → List (Event F) → Type 0
  Passed mask zero queue = Unit {0}
  Passed mask (suc pos) [] = true ≡ false
  Passed mask (suc pos) (e ∷ rest) = (wanted mask e ≡ false) × Passed mask pos rest

  -- What a search has reached, an event or none, is what there is to find.
  Reached : ℕ → List (Event F) → ℕ → Option (Event F) → Type 0
  Reached mask l i o =
      ((o ≡ none) × (first_wanted mask l ≡ none) × Passed mask i l)
      ⊎ ((r : Event F × List (Event F)) × (o ≡ some r.0)
          × (first_wanted mask l ≡ some r)
          × (erase_idx l i ≡ r.1))

  cons-Reached :
      (mask : ℕ) (e : Event F) (l : List (Event F)) (i : ℕ) (o : Option (Event F))
      → wanted mask e ≡ false
      → Reached mask l i o
      → Reached mask (e ∷ l) (suc i) o
  unfolding Reached first_wanted Passed
  cons-Reached mask e l i o no_e (inl (a, b, c)) = inl (a, (rw (no_e, b) refl), (no_e, c))
  cons-Reached mask e l i o no_e (inr (r, a, b, c)) =
      inr ((r.0, e ∷ r.1), a, (rw (no_e, b) refl), ap (λ k. e ∷ k) c)

  scan-Reached :
      (mask : ℕ) (l : List (Event F))
      → (mask == any_event_mask) ≡ false
      → Reached mask l (scan mask l) (get_elem? l (scan mask l))
  unfolding scan wanted Reached first_wanted Passed
  scan-Reached mask [] special = inl (refl, refl, tt)
  scan-Reached mask (e ∷ rest) special = elim (Bool-cases (matches mask e)) [
    | inl yes_it ↦ rw (yes_it, special) (inr ((e, rest), refl, refl, refl))
    | inr no_it ↦
        let no_e : wanted mask e ≡ false = rw (special, no_it) refl in
        let one_more : suc (scan mask rest) ≡ scan mask (e ∷ rest) = rw no_it refl in
        subst (λ i. Reached mask (e ∷ rest) i (get_elem? (e ∷ rest) i)) one_more
          (cons-Reached mask e rest (scan mask rest) (get_elem? rest (scan mask rest)) no_e
            (scan-Reached mask rest special))
  ]

  drop-Reached :
      (mask pos : ℕ) (l : List (Event F)) (i : ℕ) (o : Option (Event F))
      → Passed mask pos l
      → Reached mask (drop pos l) i o
      → Reached mask l (pos + i) o
  unfolding Passed
  drop-Reached mask zero l i o passed r = subst (λ k. Reached mask l k o) (omega arith) r
  drop-Reached mask (suc pos) [] i o passed r = absurd (ground arith)
  drop-Reached mask (suc pos) (e ∷ rest) i o passed r =
      let next = drop-Reached mask pos rest i o passed.1 r in
      subst (λ k. Reached mask (e ∷ rest) k o) (omega arith)
        (cons-Reached mask e rest (pos + i) o passed.0 next)

  Passed-length : (mask pos : ℕ) (l : List (Event F)) → Passed mask pos l → pos ≤ length l
  unfolding Passed
  Passed-length mask zero l passed = omega arith
  Passed-length mask (suc pos) [] passed = absurd (ground arith)
  Passed-length mask (suc pos) (e ∷ rest) passed =
      omega (arith, Passed-length mask pos rest passed.1)

  drop-all : (n : ℕ) (l : List (Event F)) → length l ≤ n → drop n l ≡ []
  drop-all zero [] h = refl
  drop-all zero (e ∷ rest) h = absurd (omega arith)
  drop-all (suc n) [] h = refl
  drop-all (suc n) (e ∷ rest) h = drop-all n rest (omega arith)

  any-start :
      (mask pos : ℕ) (e : Event F) (rest : List (Event F))
      → (mask == any_event_mask) ≡ true
      → Passed mask pos (e ∷ rest)
      → pos ≡ 0
  unfolding Passed wanted
  any-start mask zero e rest any_it passed = refl
  any-start mask (suc pos) e rest any_it passed = absurd (ground (arith, passed.0))

  nil-Reached : (mask : ℕ) (l : List (Event F)) → l ≡ [] → Reached mask l 0 none
  unfolding Reached first_wanted Passed
  nil-Reached mask [] e = inl (refl, refl, tt)
  nil-Reached mask (x ∷ rest) e = absurd (ground arith)

  head-Reached :
      (mask : ℕ) (e : Event F) (rest : List (Event F))
      → (mask == any_event_mask) ≡ true
      → Reached mask (e ∷ rest) 0 (some e)
  unfolding Reached first_wanted wanted
  head-Reached mask e rest any_it = inr ((e, rest), refl, (rw any_it refl), refl)

  look-Reached :
      (mask pos : ℕ) (l : List (Event F))
      → Passed mask pos l
      → Reached mask l (look mask pos l).1 (look mask pos l).0
  unfolding look Passed
  look-Reached mask zero [] passed = nil-Reached mask [] refl
  look-Reached mask (suc pos) [] passed = absurd (ground arith)
  look-Reached mask pos (e ∷ rest) passed =
      let not_empty : (length (e ∷ rest) == 0) ≡ false = ground arith in
      elim (Bool-cases (mask == any_event_mask)) [
        | inl any_it ↦
            rw (not_empty, any_it)
              (subst (λ k. Reached mask (e ∷ rest) k (some e))
                (sym (any-start mask pos e rest any_it passed)) (head-Reached mask e rest any_it))
        | inr special ↦ elim (Bool-cases (ltb pos (length (e ∷ rest)))) [
          | inl more ↦
              rw (not_empty, special, more)
                (drop-Reached mask pos (e ∷ rest) _ _ passed
                  (scan-Reached mask (drop pos (e ∷ rest)) special))
          | inr over ↦
              let none_left : drop pos (e ∷ rest) ≡ [] = drop-all pos (e ∷ rest) (ground arith) in
              rw (not_empty, special, over)
                (subst (λ k. Reached mask (e ∷ rest) k none) (omega arith)
                  (drop-Reached mask pos (e ∷ rest) 0 none passed (nil-Reached mask _ none_left)))
        ]
      ]

  Passed-append :
      (mask pos : ℕ) (l : List (Event F)) (e : Event F)
      → Passed mask pos l
      → Passed mask pos (l ++ e ∷ [])
  unfolding Passed
  Passed-append mask zero l e passed = tt
  Passed-append mask (suc pos) [] e passed = absurd (ground arith)
  Passed-append mask (suc pos) (x ∷ rest) e (now, later) =
      (now, Passed-append mask pos rest e later)

  Passed-post_all :
      (mask pos : ℕ) (posts : List (Post F)) (l : List (Event F))
      → AtEnd posts
      → Passed mask pos l
      → Passed mask pos (post_all posts l)
  unfolding post_all AtEnd post_event
  Passed-post_all mask pos [] l at_end passed = passed
  Passed-post_all mask pos (p ∷ rest) l (now, later) passed =
      Passed-post_all mask pos rest _ later (rw now (Passed-append mask pos l p.event passed))

  found_or-first_or :
      (mask : ℕ) (dequeue : Bool) (pos : ℕ) (queue : List (Event F)) (x y : Outcome F)
      → Passed mask pos queue
      → (Passed mask (look mask pos queue).1 queue → x ≡ y)
      → found_or
          (look mask pos queue).0
          (if dequeue then erase_idx queue (look mask pos queue).1 else queue)
          x
        ≡ first_or (first_wanted mask queue) dequeue queue y
  unfolding found_or first_or Reached
  found_or-first_or mask dequeue pos queue x y passed same =
      elim (look-Reached mask pos queue passed) [
        | inl (a, b, c) ↦ rw (a, b) (same c)
        | inr (r, a, b, c) ↦ rw (a, b, c) refl
      ]

  get_event_from_lem :
      (mask : ℕ) (dequeue : Bool) (pos : ℕ) (rounds : List (Round F)) (queue : List (Event F))
      → AllAtEnd rounds
      → Passed mask pos queue
      → get_event_from mask dequeue pos rounds queue ≡ first_event mask dequeue rounds queue
  unfolding get_event_from first_event AllAtEnd
  get_event_from_lem mask dequeue pos [] queue at_end passed =
      found_or-first_or mask dequeue pos queue waits waits passed (λ c. refl)
  get_event_from_lem mask dequeue pos (round ∷ rest) queue (now, later) passed =
      found_or-first_or mask dequeue pos queue _ _ passed λ c.
        ap
          (λ o.
            if round.ran && round.before_limit
            then o
            else returned none (post_all round.posts queue))
          (get_event_from_lem mask dequeue (look mask pos queue).1 rest (post_all round.posts queue)
            later (Passed-post_all mask _ round.posts queue now c))

  -- While events are posted at the end of the queue only, a search that waits for an event, and goes on from
  -- the position it has reached, gives the event and the queue of one that starts over each time: the first
  -- event in the queue that the mask asks for, or nil where none comes before the run loop or the time ends.
  pub get_event_matching_mask_lem :
      (mask : ℕ) (dequeue : Bool) (rounds : List (Round F)) (queue : List (Event F))
      → AllAtEnd rounds
      → get_event_matching_mask mask dequeue rounds queue ≡ first_event mask dequeue rounds queue
  unfolding get_event_matching_mask Passed
  get_event_matching_mask_lem mask dequeue rounds queue at_end =
      get_event_from_lem mask dequeue 0 rounds queue at_end tt
