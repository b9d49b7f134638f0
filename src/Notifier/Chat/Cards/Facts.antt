-- ===== src/Notifier/Chat/Cards/Facts.antt =====
-- The facts of an adaptive card of internal/notifier/teams.go do not depend on the order in which
-- Go goes through the metadata.
use Prim.Native.Nat.{Ordering}
use notification_controller.Prelude.{
  String, ◌==◌, not, ◌≡◌, refl, sym, ap, subst, ◌∙◌, inl, inr, Bool, true, false, List, [], ◌∷◌,
  ◌++◌, Option, none, some, if◌then◌else◌, All, ◌⊎◌, Bool-cases, arith, eq_iff, eq_refl, eq_cases,
}
use notification_controller.Prelude.Order.{
  IsBefore, IsBefore-absurd, IsBefore-trans, IsBefore-ne, order_cases, IsBefore-behind,
}
use notification_controller.Prelude.Dict.{
  Dict, lookup, filter_keys, NodupKeys, SameMap, lookup-filter_keys, filter_keys-NodupKeys,
}
use notification_controller.Notifier.Payload.Cards.{MsAdaptiveCardFact}
use notification_controller.Notifier.Chat.{entries}
use notification_controller.Notifier.Chat.Cards.{
  fact, insert_fact, sort_facts, summary_facts, adaptive_facts,
}

-- The value of the first fact with a title.
unfoldable find : String → List MsAdaptiveCardFact → Option String
find k [] = none
find k (f ∷ facts) = if f.title == k then some f.value else find k facts

-- The facts have titles behind a text.
abbrev IsBehind : String → List MsAdaptiveCardFact → Type 0
IsBehind k facts = All (λ f. IsBefore k f.title) facts

-- Each fact has a title before those of the later ones.
abbrev IsSorted : List MsAdaptiveCardFact → Type 0
IsSorted [] = Unit
IsSorted (f ∷ facts) = IsBehind f.title facts × IsSorted facts

-- A turn of the insertion, by the order of the titles.
abbrev by_order :
    MsAdaptiveCardFact
    → MsAdaptiveCardFact
    → List MsAdaptiveCardFact
    → Ordering
    → List MsAdaptiveCardFact
by_order a b facts o =
    if elim o [ Ordering.gt ↦ false | _ ↦ true ] then a ∷ b ∷ facts else b ∷ insert_fact a facts

insert_before :
    (a b : MsAdaptiveCardFact) (facts : List MsAdaptiveCardFact)
    → IsBefore a.title b.title
    → insert_fact a (b ∷ facts) ≡ a ∷ b ∷ facts
unfolding insert_fact
insert_before a b facts h = ap (by_order a b facts) h

insert_behind :
    (a b : MsAdaptiveCardFact) (facts : List MsAdaptiveCardFact)
    → IsBefore b.title a.title
    → insert_fact a (b ∷ facts) ≡ b ∷ insert_fact a facts
unfolding insert_fact
insert_behind a b facts h = ap (by_order a b facts) (IsBefore-behind b.title a.title h)

IsBehind-trans :
    (j k : String) (facts : List MsAdaptiveCardFact)
    → IsBefore j k
    → IsBehind k facts
    → IsBehind j facts
IsBehind-trans j k [] h behind = tt
IsBehind-trans j k (f ∷ facts) h (here, behind) =
    (IsBefore-trans j k f.title h here, IsBehind-trans j k facts h behind)

find_behind :
    (k : String) (facts : List MsAdaptiveCardFact) → IsBehind k facts → find k facts ≡ none
unfolding find
find_behind k [] behind = refl
find_behind k (f ∷ facts) (here, behind) = elim (eq_cases f.title k) [
  | inl same ↦ absurd (IsBefore-absurd k (subst (λ t. IsBefore k t) same here))
  | inr other ↦ rw other (find_behind k facts behind)
]

find_tail :
    (k : String) (f : MsAdaptiveCardFact) (facts : List MsAdaptiveCardFact)
    → find k (f ∷ facts) ≡ none
    → ((f.title == k) ≡ false) × (find k facts ≡ none)
unfolding find
find_tail k f facts h = elim (Bool-cases (f.title == k)) [
  | inl same ↦ let no = rw same at h in cc
  | inr other ↦ (other, rw other at h)
]

-- Where a title is new, its fact goes before a fact or behind it.
new_cases :
    (a b : MsAdaptiveCardFact) (facts : List MsAdaptiveCardFact)
    → find a.title (b ∷ facts) ≡ none
    → IsBefore a.title b.title ⊎ (IsBefore b.title a.title × (find a.title facts ≡ none))
new_cases a b facts new =
    let (other, rest) = find_tail a.title b facts new in
    elim (order_cases a.title b.title) [
      | inl before ↦ inl before
      | inr (inl same) ↦ let no = rw (same, eq_refl b.title) at other in cc
      | inr (inr after) ↦ inr (after, rest)
    ]

insert-IsBehind :
    (k : String) (a : MsAdaptiveCardFact) (facts : List MsAdaptiveCardFact)
    → IsBefore k a.title
    → IsBehind k facts
    → find a.title facts ≡ none
    → IsBehind k (insert_fact a facts)
unfolding insert_fact
insert-IsBehind k a [] h behind new = (h, tt)
insert-IsBehind k a (b ∷ facts) h (here, behind) new = elim (new_cases a b facts new) [
  | inl before ↦ subst (IsBehind k) (sym (insert_before a b facts before)) (h, (here, behind))
  | inr (after, rest) ↦
      subst (IsBehind k) (sym (insert_behind a b facts after))
        (here, insert-IsBehind k a facts h behind rest)
]

insert-IsSorted :
    (a : MsAdaptiveCardFact) (facts : List MsAdaptiveCardFact)
    → IsSorted facts
    → find a.title facts ≡ none
    → IsSorted (insert_fact a facts)
unfolding insert_fact
insert-IsSorted a [] sorted new = (tt, tt)
insert-IsSorted a (b ∷ facts) (behind, sorted) new = elim (new_cases a b facts new) [
  | inl before ↦
      subst IsSorted (sym (insert_before a b facts before))
        ((before, IsBehind-trans a.title b.title facts before behind), (behind, sorted))
  | inr (after, rest) ↦
      subst IsSorted (sym (insert_behind a b facts after))
        (insert-IsBehind b.title a facts after behind rest, insert-IsSorted a facts sorted rest)
]

find-insert :
    (k : String) (a : MsAdaptiveCardFact) (facts : List MsAdaptiveCardFact)
    → find a.title facts ≡ none
    → find k (insert_fact a facts) ≡ (if a.title == k then some a.value else find k facts)
unfolding insert_fact find
find-insert k a [] new = refl
find-insert k a (b ∷ facts) new = elim (new_cases a b facts new) [
  | inl before ↦ ap (find k) (insert_before a b facts before)
  | inr (after, rest) ↦
      ap (find k) (insert_behind a b facts after)
      ∙ ground (
        arith,
        eq_iff a.title k,
        eq_iff b.title k,
        eq_iff b.title a.title,
        IsBefore-ne b.title a.title after,
        find-insert k a facts rest,
      )
]

find-sort :
    (m : Dict String)
    → NodupKeys m
    → ((k : String) → find k (sort_facts (entries fact m)) ≡ lookup k m)
      × IsSorted (sort_facts (entries fact m))
unfolding sort_facts lookup find
find-sort [] nodup = (λ k. refl, tt)
find-sort ((j, v) ∷ m) (fresh, nodup) =
    let (finds, sorted) = find-sort m nodup in
    let new = finds j ∙ fresh in
    (
      λ k.
          find-insert k (fact j v) (sort_facts (entries fact m)) new
          ∙ ap (λ r. if j == k then some v else r) (finds k),
      insert-IsSorted (fact j v) (sort_facts (entries fact m)) sorted new,
    )

find_head :
    (f : MsAdaptiveCardFact) (facts : List MsAdaptiveCardFact)
    → find f.title (f ∷ facts) ≡ some f.value
unfolding find
find_head f facts = rw (eq_refl f.title) refl

some_path : {v w : String} → some v ≡ some w → v ≡ w
some_path h = cc

-- The rests have the same values too.
tails :
    (a b : MsAdaptiveCardFact) (l r : List MsAdaptiveCardFact)
    → a.title ≡ b.title
    → IsBehind a.title l
    → IsBehind b.title r
    → ((k : String) → find k (a ∷ l) ≡ find k (b ∷ r))
    → (k : String) → find k l ≡ find k r
unfolding find
tails a b l r title al br same k = elim (eq_cases a.title k) [
  | inl here ↦
      find_behind k l (subst (λ t. IsBehind t l) here al)
      ∙ sym (find_behind k r (subst (λ t. IsBehind t r) (sym title ∙ here) br))
  | inr other ↦ rw (other, subst (λ t. (t == k) ≡ false) title other) at (same k)
]

-- Facts in order with the same values under all titles are the same.
sorted_unique :
    (l r : List MsAdaptiveCardFact)
    → IsSorted l
    → IsSorted r
    → ((k : String) → find k l ≡ find k r)
    → l ≡ r
unfolding find
sorted_unique [] [] sl sr same = refl
sorted_unique [] (b ∷ r) sl sr same = let no = rw (eq_refl b.title) at (same b.title) in cc
sorted_unique (a ∷ l) [] sl sr same = let no = rw (eq_refl a.title) at (same a.title) in cc
sorted_unique (a ∷ l) (b ∷ r) (al, sl) (br, sr) same = elim (order_cases a.title b.title) [
  | inl before ↦
      let no =
        sym (find_head a l)
        ∙ same a.title
        ∙ find_behind a.title (b ∷ r) (before, IsBehind-trans a.title b.title r before br) in
      cc
  | inr (inl title) ↦
      let value =
        some_path
          (sym (find_head a l) ∙ same a.title ∙ ap (λ t. find t (b ∷ r)) title ∙ find_head b r) in
      λ i.
        record { title = title i; value = value i }
        ∷ sorted_unique l r sl sr (tails a b l r title al br same) i
  | inr (inr after) ↦
      let no =
        sym (find_head b r)
        ∙ sym (same b.title)
        ∙ find_behind b.title (a ∷ l) (after, IsBehind-trans b.title a.title l after al) in
      cc
]

-- The facts of a card are the same for the same map, in whatever order its entries come.
pub adaptive_facts_order :
    (m n : Dict String)
    → NodupKeys m
    → NodupKeys n
    → SameMap m n
    → adaptive_facts m ≡ adaptive_facts n
unfolding adaptive_facts
adaptive_facts_order m n nodup_m nodup_n same =
    let p : String → Bool = λ k. not (k == "summary") in
    let (finds_m, sorted_m) = find-sort (filter_keys p m) (filter_keys-NodupKeys p m nodup_m) in
    let (finds_n, sorted_n) = find-sort (filter_keys p n) (filter_keys-NodupKeys p n nodup_n) in
    let sorted =
      sorted_unique (sort_facts (entries fact (filter_keys p m)))
        (sort_facts (entries fact (filter_keys p n))) sorted_m sorted_n
        (λ k.
          finds_m k
          ∙ lookup-filter_keys k p m
          ∙ ap (λ v. if p k then v else none) (same k)
          ∙ sym (lookup-filter_keys k p n)
          ∙ sym (finds_n k)) in
    λ i. summary_facts (same "summary" i) ++ sorted i
