-- ===== src/Staking/Filters/Counts.antt =====
-- What the counts of the filters say.
use pdexplorer.Prelude.{
  ◌+◌, Bool, true, not, ◌&&◌, ◌||◌, Bool-cases, none, some, List, [], ◌∷◌, ◌≡◌, refl, ap, sym, ◌∙◌,
  inl, inr, arith, In, ==_iff, get_elem?, all, length, filter_by, ◌==◌,
}
use pdexplorer.Staking.Filters.{Status, active, waiting, all_statuses, Filters}
use pdexplorer.Staking.Filters.Pass.{
  Validator, Context, FilterKey, by_status, by_max_commission, by_no_recent_raise, by_identity,
  by_not_blocked, by_reliability, by_single_page, by_min_self_stake, by_no_slash, by_spread,
  filter_keys, key_index, is_key, predicate, passes_status, passes_max_commission,
  passes_single_page, passes_min_self_stake, passes_no_slash, passes_spread, matches_search, passes,
  apply_filters, filter_counts,
}

filter_by-implies :
    {A : Type 0} (p q : A → Bool) (h : (a : A) → q a ≡ true → p a ≡ true) (xs : List A)
    → length (filter_by p xs)
      ≡ length (filter_by q xs) + length (filter_by (λ a. p a && not (q a)) xs)
filter_by-implies p q h [] = refl
filter_by-implies p q h (x ∷ xs) = ground (arith, h x, filter_by-implies p q h xs)

filter_by-agree :
    {A : Type 0} (p q : A → Bool) (h : (a : A) → p a ≡ q a) (xs : List A)
    → filter_by p xs ≡ filter_by q xs
filter_by-agree p q h [] = refl
filter_by-agree p q h (x ∷ xs) = ground (arith, h x, filter_by-agree p q h xs)

filter_by-twice :
    {A : Type 0} (p q : A → Bool) (xs : List A)
    → filter_by q (filter_by p xs) ≡ filter_by (λ a. p a && q a) xs
filter_by-twice p q [] = refl
filter_by-twice p q (x ∷ xs) = ground (arith, filter_by-twice p q xs)

get_elem?-key_index : (k : FilterKey) → get_elem? filter_keys (key_index k) ≡ some k
get_elem?-key_index by_status = refl
get_elem?-key_index by_max_commission = refl
get_elem?-key_index by_no_recent_raise = refl
get_elem?-key_index by_identity = refl
get_elem?-key_index by_not_blocked = refl
get_elem?-key_index by_reliability = refl
get_elem?-key_index by_single_page = refl
get_elem?-key_index by_min_self_stake = refl
get_elem?-key_index by_no_slash = refl
get_elem?-key_index by_spread = refl

same_key : (k l : FilterKey) → (key_index k == key_index l) ≡ true → k ≡ l
same_key k l h =
    let (to, from) = ==_iff (key_index k) (key_index l) in
    ap (λ o. elim o [ none ↦ k | some m ↦ m ])
      (sym (get_elem?-key_index k) ∙ ap (get_elem? filter_keys) (to h) ∙ get_elem?-key_index l)

In-filter_keys : (k : FilterKey) → In k filter_keys
In-filter_keys by_status = inl refl
In-filter_keys by_max_commission = inr (inl refl)
In-filter_keys by_no_recent_raise = inr (inr (inl refl))
In-filter_keys by_identity = inr (inr (inr (inl refl)))
In-filter_keys by_not_blocked = inr (inr (inr (inr (inl refl))))
In-filter_keys by_reliability = inr (inr (inr (inr (inr (inl refl)))))
In-filter_keys by_single_page = inr (inr (inr (inr (inr (inr (inl refl))))))
In-filter_keys by_min_self_stake = inr (inr (inr (inr (inr (inr (inr (inl refl)))))))
In-filter_keys by_no_slash = inr (inr (inr (inr (inr (inr (inr (inr (inl refl))))))))
In-filter_keys by_spread = inr (inr (inr (inr (inr (inr (inr (inr (inr (inl refl)))))))))

-- A test of every key, and of every key but one.
module _ (skip : FilterKey) (f : FilterKey → Bool) where
  but : FilterKey → Bool
  but k = is_key (some skip) k || f k

  but_cases : (k : FilterKey) → (but k && f skip) ≡ (f k && f skip)
  unfolding but
  but_cases k = elim (Bool-cases (key_index skip == key_index k)) [
    | inl e ↦ rw (e, sym (same_key skip k e)) ground arith
    | inr e ↦ rw e refl
  ]

  all-but : (ks : List FilterKey) → (all but ks && f skip) ≡ (all f ks && f skip)
  all-but [] = refl
  all-but (k ∷ ks) = ground (arith, but_cases k, all-but ks)

  all-In : (ks : List FilterKey) → In skip ks → (all f ks && f skip) ≡ all f ks
  all-In [] m = elim m [ ]
  all-In (k ∷ ks) (inl e) = rw e ground arith
  all-In (k ∷ ks) (inr m) = ground (arith, all-In ks m)

put_apart : (a b p m : Bool) → (a && p) ≡ (b && p) → (b && p) ≡ b → (b && m) ≡ ((a && m) && p)
put_apart a b p m h k = ground arith

passes_skip :
    (v : Validator) (s : Filters) (ctx : Context) (k : FilterKey)
    → passes v s ctx none ≡ (passes v s ctx (some k) && predicate k v s ctx)
unfolding passes but
passes_skip v s ctx k =
    let f : FilterKey → Bool = λ l. predicate l v s ctx in
    put_apart (all (but k f) filter_keys) (all f filter_keys) (f k) (matches_search v ctx.search)
      (all-but k f filter_keys) (all-In k f filter_keys (In-filter_keys k))

-- The count for a filter is that of the validators which only this filter keeps out: they fail it, and
-- pass every other filter and the search. The count of those shown is that of the list.
pub hidden_by_exact :
    (vs : List Validator) (s : Filters) (ctx : Context) (k : FilterKey)
    → ((filter_counts vs s ctx).hidden_by k
        ≡ length (filter_by (λ v. passes v s ctx (some k) && not (predicate k v s ctx)) vs))
      × ((filter_counts vs s ctx).shown ≡ length (apply_filters vs s ctx))
unfolding filter_counts apply_filters
hidden_by_exact vs s ctx k =
    let p : Validator → Bool = λ v. passes v s ctx (some k) in
    let q : Validator → Bool = λ v. passes v s ctx none in
    let split = filter_by-implies p q (λ v h. ground (arith, h, passes_skip v s ctx k)) vs in
    let same =
      filter_by-agree (λ v. p v && not (q v)) (λ v. p v && not (predicate k v s ctx))
        (λ v. ground (arith, passes_skip v s ctx k)) vs in
    (rw (sym same) omega (arith, split), refl)

-- The state with another choice of status.
abbrev pub with_status : Status → Filters → Filters
with_status st s = record s { status = st }

passes-with_status :
    (v : Validator) (s : Filters) (ctx : Context) (st : Status)
    → passes v (with_status st s) ctx none ≡ (passes v s ctx (some by_status) && passes_status v st)
unfolding passes predicate passes_max_commission passes_single_page passes_min_self_stake
    passes_no_slash passes_spread
passes-with_status v s ctx st = passes_skip v (with_status st s) ctx by_status

filter_by-true : {A : Type 0} (xs : List A) → filter_by (λ a. true) xs ≡ xs
filter_by-true [] = refl
filter_by-true (x ∷ xs) = ap (x ∷◌) (filter_by-true xs)

filter_by-not :
    {A : Type 0} (p : A → Bool) (xs : List A)
    → length xs ≡ length (filter_by p xs) + length (filter_by (λ a. not (p a)) xs)
filter_by-not p [] = refl
filter_by-not p (x ∷ xs) = ground (arith, filter_by-not p xs)

apply_filters-with_status :
    (vs : List Validator) (s : Filters) (ctx : Context) (st : Status)
    → apply_filters vs (with_status st s) ctx
      ≡ filter_by (λ v. passes_status v st) (filter_by (λ v. passes v s ctx (some by_status)) vs)
unfolding apply_filters
apply_filters-with_status vs s ctx st =
    filter_by-agree (λ v. passes v (with_status st s) ctx none)
      (λ v. passes v s ctx (some by_status) && passes_status v st)
      (λ v. passes-with_status v s ctx st) vs
    ∙ sym (filter_by-twice (λ v. passes v s ctx (some by_status)) (λ v. passes_status v st) vs)

-- The three counts next to the choices of status are the lengths of the lists that the choices show,
-- and the active and the waiting make up all.
pub status_counts_exact :
    (vs : List Validator) (s : Filters) (ctx : Context)
    → ((filter_counts vs s ctx).active_count ≡ length (apply_filters vs (with_status active s) ctx))
      × ((filter_counts vs s ctx).waiting_count
          ≡ length (apply_filters vs (with_status waiting s) ctx))
      × ((filter_counts vs s ctx).all_count
          ≡ length (apply_filters vs (with_status all_statuses s) ctx))
      × ((filter_counts vs s ctx).active_count + (filter_counts vs s ctx).waiting_count
          ≡ (filter_counts vs s ctx).all_count)
unfolding filter_counts passes_status
status_counts_exact vs s ctx =
    let others = filter_by (λ v. passes v s ctx (some by_status)) vs in
    let shown = apply_filters-with_status vs s ctx in
    let split = filter_by-not (λ v. v.is_active) others in
    (
      ap length (sym (shown active)),
      rw (shown waiting) omega (arith, split),
      ap length (sym (shown all_statuses ∙ filter_by-true others)),
      omega (arith, split),
    )
