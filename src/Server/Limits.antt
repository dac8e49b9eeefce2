-- ===== src/Server/Limits.antt =====
-- The limits of a request's filter: what toFilter lets through.
use kora_db.Base.{
  ℕ, zero, suc, ◌+◌, ◌≤◌, ◌≡◌, ap, false, ok, err, reject-eq-ok, >>=-elim, ◌>>=◌, ok-injective, ltb,
  arith, out_of_range, syntax,
}
use mathlib.Core.Path.{subst}
use kora_db.Query.Filter.{Filter, Filters, nil, cmp, and, or, end, more}
use kora_db.Server.{
  PbFilter, PbFilters, no_filter, no_node, comparison, and_group, or_group, last, then_filter,
  to_op, max_filter_depth, max_filter_predicates, spend, is_last, to_filter_with_limits,
  to_filters_with_limits, to_filter,
}

-- The comparisons of a filter.
abbrev mutual
  pub comparisons : Filter → ℕ
  comparisons nil = 0
  comparisons (cmp c) = 1
  comparisons (and fs) = comparisons_of fs
  comparisons (or fs) = comparisons_of fs

  pub comparisons_of : Filters → ℕ
  comparisons_of end = 0
  comparisons_of (more f fs) = comparisons f + comparisons_of fs

-- No node of the filter is deeper than the bound, when its root is at the given depth.
abbrev mutual
  pub IsWithin : ℕ → ℕ → Filter → Type 0
  IsWithin bound depth nil = Unit
  IsWithin bound depth (cmp c) = depth ≤ bound
  IsWithin bound depth (and fs) = (depth ≤ bound) × AreWithin bound (suc depth) fs
  IsWithin bound depth (or fs) = (depth ≤ bound) × AreWithin bound (suc depth) fs

  pub AreWithin : ℕ → ℕ → Filters → Type 0
  AreWithin bound depth end = Unit
  AreWithin bound depth (more f fs) = IsWithin bound depth f × AreWithin bound depth fs

-- A conversion has spent one of the budget on each comparison, and kept to the depth.
record Kept (depth budget left count : ℕ) (Within : Type 0) : Type 0 where
  spent : count + left ≤ budget
  within : Within

abbrev FilterKept : ℕ → ℕ → Filter × ℕ → Type 0
FilterKept depth budget (g, left) =
    Kept depth budget left (comparisons g) (IsWithin max_filter_depth depth g)

abbrev FiltersKept : ℕ → ℕ → Filters × ℕ → Type 0
FiltersKept depth budget (gs, left) =
    Kept depth budget left (comparisons_of gs) (AreWithin max_filter_depth depth gs)

spend-eq-ok : (budget : ℕ) {left : ℕ} → spend budget ≡ ok left → budget ≡ suc left
spend-eq-ok zero h = absurd (cc)
spend-eq-ok (suc b) h = ap suc (ok-injective h)

depth_le : (depth : ℕ) → ltb max_filter_depth depth ≡ false → depth ≤ max_filter_depth
depth_le depth h = ground (arith, h)

-- One filter and the rest of a group.
both-Kept :
    (f : PbFilter) (fs : PbFilters) (depth budget : ℕ) (r : Filters × ℕ)
    → ((x : Filter × ℕ) → to_filter_with_limits f depth budget ≡ ok x → FilterKept depth budget x)
    → ((left : ℕ) (y : Filters × ℕ)
        → to_filters_with_limits fs depth left ≡ ok y
        → FiltersKept depth left y)
    → (to_filter_with_limits f depth budget
        >>= (λ x. to_filters_with_limits fs depth x.1 >>= (λ y. ok (more x.0 y.0, y.1))))
      ≡ ok r
    → FiltersKept depth budget r
both-Kept f fs depth budget r kept all_kept h =
    >>=-elim (to_filter_with_limits f depth budget) h λ (g, left) e h₁.
      >>=-elim (to_filters_with_limits fs depth left) h₁ λ (gs, rest) e' h₂.
        let k = kept (g, left) e in
        let l = all_kept left (gs, rest) e' in
        subst (FiltersKept depth budget) (ok-injective h₂)
          (record { spent = omega (arith, k.spent, l.spent); within = (k.within, l.within) })

mutual
  unfolding to_filter_with_limits to_filters_with_limits

  filter-Kept :
      (f : PbFilter) (depth budget : ℕ) (r : Filter × ℕ)
      → to_filter_with_limits f depth budget ≡ ok r
      → FilterKept depth budget r
  filter-Kept no_filter depth budget r h =
      subst (FilterKept depth budget) (ok-injective h) (record { spent = omega arith; within = tt })
  filter-Kept no_node depth budget r h =
      let (d, h₁) = reject-eq-ok (ltb max_filter_depth depth) out_of_range (err syntax) h in
      absurd (cc)
  filter-Kept (comparison field op value) depth budget r h =
      let (d, h₁) = reject-eq-ok (ltb max_filter_depth depth) out_of_range _ h in
      >>=-elim (spend budget) h₁ λ left e h₂. >>=-elim (to_op op) h₂ λ o e' h₃.
        subst (FilterKept depth budget) (ok-injective h₃)
          (record { spent = omega (arith, spend-eq-ok budget e); within = depth_le depth d })
  filter-Kept (and_group fs) depth budget r h =
      let (d, h₁) = reject-eq-ok (ltb max_filter_depth depth) out_of_range _ h in
      let (some_filter, h₂) = reject-eq-ok (is_last fs) syntax _ h₁ in
      >>=-elim (to_filters_with_limits fs (suc depth) budget) h₂ λ (gs, left) e h₃.
        let k = filters-Kept fs (suc depth) budget (gs, left) e in
        subst (FilterKept depth budget) (ok-injective h₃)
          (record { spent = k.spent; within = (depth_le depth d, k.within) })
  filter-Kept (or_group fs) depth budget r h =
      let (d, h₁) = reject-eq-ok (ltb max_filter_depth depth) out_of_range _ h in
      let (some_filter, h₂) = reject-eq-ok (is_last fs) syntax _ h₁ in
      >>=-elim (to_filters_with_limits fs (suc depth) budget) h₂ λ (gs, left) e h₃.
        let k = filters-Kept fs (suc depth) budget (gs, left) e in
        subst (FilterKept depth budget) (ok-injective h₃)
          (record { spent = k.spent; within = (depth_le depth d, k.within) })

  filters-Kept :
      (fs : PbFilters) (depth budget : ℕ) (r : Filters × ℕ)
      → to_filters_with_limits fs depth budget ≡ ok r
      → FiltersKept depth budget r
  filters-Kept last depth budget r h =
      subst (FiltersKept depth budget) (ok-injective h)
        (record { spent = omega arith; within = tt })
  filters-Kept (then_filter no_filter fs) depth budget r h = absurd (cc)
  filters-Kept (then_filter no_node fs) depth budget r h =
      both-Kept no_node fs depth budget r (filter-Kept no_node depth budget) (filters-Kept fs depth)
        h
  filters-Kept (then_filter (comparison x o v) fs) depth budget r h =
      both-Kept (comparison x o v) fs depth budget r (filter-Kept (comparison x o v) depth budget)
        (filters-Kept fs depth) h
  filters-Kept (then_filter (and_group gs) fs) depth budget r h =
      both-Kept (and_group gs) fs depth budget r (filter-Kept (and_group gs) depth budget)
        (filters-Kept fs depth) h
  filters-Kept (then_filter (or_group gs) fs) depth budget r h =
      both-Kept (or_group gs) fs depth budget r (filter-Kept (or_group gs) depth budget)
        (filters-Kept fs depth) h

-- A filter that to_filter returns has at most 64 comparisons, and no node of it is deeper than 32.
pub to_filter-IsWithin :
    (f : PbFilter) (g : Filter) → to_filter f ≡ ok g → (comparisons g ≤ 64) × IsWithin 32 1 g
unfolding to_filter
to_filter-IsWithin f g h =
    >>=-elim (to_filter_with_limits f 1 max_filter_predicates) h λ (g', left) e h₁.
      let k = filter-Kept f 1 max_filter_predicates (g', left) e in
      subst (λ x. (comparisons x ≤ 64) × IsWithin 32 1 x) (ok-injective h₁)
        (omega (arith, k.spent), k.within)
