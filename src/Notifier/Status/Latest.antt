-- ===== src/Notifier/Status/Latest.antt =====
-- The loops through the statuses of a commit, in which github.go, gitea.go and azure_devops.go of
-- internal/notifier look for a duplicate, and what a host lists after a post.
use notification_controller.Prelude.{
  ◌≡◌, refl, ap, ◌∙◌, ◌↔◌, String, Bool, true, false, Bool-cases, inl, inr, List, [], ◌∷◌, Option,
  none, some, Option-cases, if◌then◌else◌, ok,
}
use notification_controller.Prelude.Actions.{
  Action, wrap_action, wrap_second-eq-ok, wrap_second-state,
}
use notification_controller.Notifier.Status.{post_unless}
use notification_controller.Notifier.Status.Laws.{IsShown, post_unless-IsShown, post_unless-again}

-- The statuses of a list that have all their texts.
unfoldable pub complete : {R N : Type 0} → (R → Option N) → List R → List N
complete texts [] = []
complete texts (r ∷ rs) =
    let rest = complete texts rs in elim (texts r) [ none ↦ rest | some n ↦ n ∷ rest ]

-- The first status of a list that is about the same as a given one.
unfoldable pub latest : {N : Type 0} → (N → N → Bool) → N → List N → Option N
latest about n [] = none
latest about n (m ∷ ms) = if about m n then some m else latest about n ms

-- A turn of a loop, from the answer for the rest.
abbrev pub turn : {N : Type 0} → (N → N → Bool) → (N → N → Bool) → N → Bool → Option N → Bool
turn about same n rest none = rest
turn about same n rest (some m) = if about m n then same m n else rest

-- A loop through listed statuses, and the tests that it makes of their texts.
pub record Loop (R N : Type 0) : Type 0 where
  pub texts : R → Option N
  pub about : N → N → Bool
  pub same : N → N → Bool
  pub duplicate : List R → N → Bool
  pub duplicate_nil : (n : N) → duplicate [] n ≡ false
  pub duplicate_cons :
      (r : R) (rs : List R) (n : N)
      → duplicate (r ∷ rs) n ≡ turn about same n (duplicate rs n) (texts r)
  pub about_self : (n : N) → about n n ≡ true
  pub same_iff : (m n : N) → about m n ≡ true → (same m n ≡ true) ↔ (m ≡ n)

some-injective : {N : Type 0} (a b : N) → some a ≡ some b → a ≡ b
some-injective a b h = cc

module _ {R N : Type 0} (loop : Loop R N) where
  -- The loop finds a status just if it is the latest of the complete ones that are about the same.
  pub duplicate_iff :
      (rs : List R) (n : N)
      → (loop.duplicate rs n ≡ true) ↔ (latest loop.about n (complete loop.texts rs) ≡ some n)
  unfolding latest complete
  duplicate_iff [] n = rw (loop.duplicate_nil n) (λ h. cc, λ h. cc)
  duplicate_iff (r ∷ rs) n = elim (Option-cases (loop.texts r)) [
    | inl no_texts ↦ rw (loop.duplicate_cons r rs n, complete, no_texts) (duplicate_iff rs n)
    | inr (m, texts) ↦ elim (Bool-cases (loop.about m n)) [
      | inl about ↦
          rw (loop.duplicate_cons r rs n, complete, texts, about)
            (
              λ h. ap some ((loop.same_iff m n about).0 h),
              λ h. (loop.same_iff m n about).1 (some-injective m n h),
            )
      | inr other ↦ rw (loop.duplicate_cons r rs n, complete, texts, other) (duplicate_iff rs n)
    ]
  ]

  duplicate_of_listed :
      (r : R) (n : N) (rest : List R) → loop.texts r ≡ some n → loop.duplicate (r ∷ rest) n ≡ true
  duplicate_of_listed r n rest whole =
      rw (loop.duplicate_cons r rest n, whole, loop.about_self n)
        ((loop.same_iff n n (loop.about_self n)).1 refl)

-- What a host answers for the statuses of a commit.
module _ {S R Statuses : Type 0} (items : Statuses → List R) (list : Action S Statuses) where
  -- The host shows a status, in its form, first.
  abbrev pub ShowsFirst : R → S → Type 0
  ShowsFirst r s =
      (statuses : Statuses) × (rest : List R) × (list s ≡ (s, ok statuses))
      × (items statuses ≡ r ∷ rest)

  -- The host lists the statuses, of which the latest complete one that is about the same as a
  -- status is equal to it.
  abbrev pub IsLatestAt : {N : Type 0} → (R → Option N) → (N → N → Bool) → N → S → Type 0
  IsLatestAt texts about n s =
      (statuses : Statuses) × (list s ≡ (s, ok statuses))
      × (latest about n (complete texts (items statuses)) ≡ some n)

-- A post to a host, for the texts of a status, the form in which the host lists it, and the call
-- that creates it.
module _ {S R N Statuses : Type 0} (loop : Loop R N) (items : Statuses → List R)
    (list : Action S Statuses) (n : N) where
  module _ (r : R) (whole : loop.texts r ≡ some n) (words : String) (create : Action S (Unit {0}))
      (reads : (s : S) → (list s).0 ≡ s)
      (shows : (s t : S) → create s ≡ (t, ok tt) → ShowsFirst items list r t) where
    -- The end of a post.
    abbrev pub post_status : Action S (Unit {0})
    post_status =
        post_unless (wrap_action words list) (λ statuses. loop.duplicate (items statuses) n) create

    abbrev duplicate : Statuses → Bool
    duplicate statuses = loop.duplicate (items statuses) n

    list_reads : (s : S) → (wrap_action words list s).0 ≡ s
    list_reads s = wrap_second-state _ _ ∙ reads s

    created-IsShown :
        (s t : S) → create s ≡ (t, ok tt) → IsShown (wrap_action words list) duplicate create t
    created-IsShown s t created =
        let (statuses, rest, listed, first) = shows s t created in
        (
          statuses,
          rw listed refl,
          ap (λ rs. loop.duplicate rs n) first ∙ duplicate_of_listed loop r n rest whole,
        )

    pub post_status-IsLatestAt :
        (before after : S)
        → post_status before ≡ (after, ok tt)
        → IsLatestAt items list loop.texts loop.about n after
    post_status-IsLatestAt before after posted =
        let (statuses, answer, same) =
          post_unless-IsShown (wrap_action words list) duplicate create before after list_reads
            created-IsShown posted in
        (statuses, wrap_second-eq-ok _ _ _ _ answer, (duplicate_iff loop (items statuses) n).0 same)

    pub post_status-again :
        (before after : S)
        → post_status before ≡ (after, ok tt)
        → post_status after ≡ (after, ok tt)
    post_status-again before after posted =
        post_unless-again (wrap_action words list) duplicate create before after list_reads
          created-IsShown posted
