-- ===== src/Schedule/Many.antt =====
-- Independent copies of one program, side by side: a coroutine is that of one copy, by its number.
use zio_benchmarks.Schedule.{CanStep, Terminating}
use zio_benchmarks.Shared.{
  ℕ, zero, suc, ◌<◌, ◌≡◌, ◌⊎◌, inl, inr, refl, ◌∙◌, List, [], ◌∷◌, Option, none, some, get_elem?,
  set, length, length-set, All, All-set, All-get_elem?, total, total-set, WhenSome, Option-cases,
  arith, get_elem?-lt_length,
}

module _ {S K : Type 0} (step : S → K → Option S) where
  abbrev pub put_copy : List S → ℕ → Option S → Option (List S)
  put_copy ss i none = none
  put_copy ss i (some t) = some (set ss i t)

  unfoldable pub many : List S → ℕ × K → Option (List S)
  many ss (i, k) = elim (get_elem? ss i) [ none ↦ none | some s ↦ put_copy ss i (step s k) ]

module _ {S K : Type 0} {step : S → K → Option S} (T : Terminating step) (copies : ℕ) where
  open T use {Inv, Done, Member, measure, keeps, lowers, progress, stays}

  abbrev pub ManyInv : List S → Type 0
  ManyInv ss = All Inv ss × (length ss ≡ copies)

  put-ManyInv :
      (ss : List S) (i : ℕ) (r : Option S)
      → ManyInv ss
      → WhenSome Inv r
      → WhenSome ManyInv (put_copy step ss i r)
  put-ManyInv ss i none inv h = tt
  put-ManyInv ss i (some t) inv h = (All-set Inv ss i t inv.0 h, length-set ss i t ∙ inv.1)

  pub many-ManyInv : (ss : List S) (k : ℕ × K) → ManyInv ss → WhenSome ManyInv (many step ss k)
  unfolding many
  many-ManyInv ss (i, k) inv = elim (Option-cases (get_elem? ss i)) [
    | inl out ↦ rw (out, many) tt
    | inr (s, at) ↦
        rw (at, many)
          (put-ManyInv ss i (step s k) inv (keeps s k (All-get_elem? Inv ss i inv.0 at)))
  ]

  put_lowers :
      (ss : List S) (i : ℕ) (s : S) (r : Option S)
      → get_elem? ss i ≡ some s
      → WhenSome (λ t. measure t < measure s) r
      → WhenSome (λ ts. total measure ts < total measure ss) (put_copy step ss i r)
  put_lowers ss i s none at h = tt
  put_lowers ss i s (some t) at h = omega (arith, total-set measure ss i s t at, h)

  pub many_lowers :
      (ss : List S) (k : ℕ × K)
      → ManyInv ss
      → WhenSome (λ ts. total measure ts < total measure ss) (many step ss k)
  unfolding many
  many_lowers ss (i, k) inv = elim (Option-cases (get_elem? ss i)) [
    | inl out ↦ rw (out, many) tt
    | inr (s, at) ↦
        rw (at, many)
          (put_lowers ss i s (step s k) at (lowers s k (All-get_elem? Inv ss i inv.0 at)))
  ]

  -- Either every copy is done, or one that is not can go on.
  find_progress :
      (ss : List S)
      → All Inv ss
      → All Done ss
        ⊎ ((i : ℕ) × (s : S) × (k : K) × (get_elem? ss i ≡ some s) × Member k × CanStep step s k)
  find_progress [] inv = inl tt
  find_progress (s ∷ ss) inv = elim (progress s inv.0) [
    | inr (k, member, can) ↦ inr (zero, s, k, refl, member, can)
    | inl done ↦ elim (find_progress ss inv.1) [
      | inl all ↦ inl (done, all)
      | inr (i, t, k, at, member, can) ↦ inr (suc i, t, k, at, member, can)
    ]
  ]

  pub many_progress :
      (ss : List S)
      → ManyInv ss
      → All Done ss ⊎ ((k : ℕ × K) × ((k.0 < copies) × Member k.1) × CanStep (many step) ss k)
  unfolding many
  many_progress ss inv = elim (find_progress ss inv.0) [
    | inl all ↦ inl all
    | inr (i, s, k, at, member, (t, e)) ↦ inr (
      (i, k),
      (omega (arith, get_elem?-lt_length ss i at, inv.1), member),
      (set ss i t, rw (at, many, e)),
    )
  ]

  pub many_stays : (ss : List S) (k : ℕ × K) → All Done ss → many step ss k ≡ none
  unfolding many
  many_stays ss (i, k) done = elim (Option-cases (get_elem? ss i)) [
    | inl out ↦ rw (out, many)
    | inr (s, at) ↦ rw (at, many, stays s k (All-get_elem? Done ss i done at))
  ]

  -- If one copy terminates, so do many.
  abbrev pub many_terminating : Terminating (many step)
  many_terminating = record {
    Inv = ManyInv;
    Done = All Done;
    Member = λ k. (k.0 < copies) × Member k.1;
    measure = total measure;
    keeps = many-ManyInv;
    lowers = many_lowers;
    progress = many_progress;
    stays = many_stays;
  }
