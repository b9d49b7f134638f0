-- ===== src/Notifier/AzureDevops/Laws.antt =====
-- What is a duplicate of a commit status for internal/notifier/azure_devops.go, and what the host
-- lists after a post.
use notification_controller.Prelude.{
  ap, subst, inl, inr, String, ◌==◌, ◌≡◌, ◌↔◌, refl, Bool, true, false, List, [], ◌∷◌, Option, none,
  some, ok, texts_iff, ◌&&◌, Option-cases,
}
use notification_controller.Prelude.Actions.{Action, wrap_action, wrap_second-eq-ok, lift-eq-ok}
use notification_controller.Api.Event.{Event}
use notification_controller.Notifier.Tools.{Tools}
use notification_controller.Notifier.Status.{post_unless}
use notification_controller.Notifier.Status.Latest.{
  Loop, turn, ShowsFirst, IsLatestAt, post_status-IsLatestAt,
}
use notification_controller.Notifier.AzureDevops.{
  GitStatus, NewGitStatus, AzureApi, AzureDevOps, full_status, duplicate_azure_status,
  duplicate_azure_dev_ops_status, azure_dev_ops_status, post_azure_status, post_azure_dev_ops,
}

-- A status in the form in which the host lists it.
abbrev pub listed : NewGitStatus → GitStatus
listed n = record {
  description = some n.description;
  state = some n.state;
  context = some (record { genre = some n.genre; name = some n.name });
}

-- The statuses of an answer, of which a nil list has none.
abbrev pub items : Option (List GitStatus) → List GitStatus
items none = []
items (some statuses) = statuses

abbrev pub same_context : NewGitStatus → NewGitStatus → Bool
same_context s t = s.name == t.name && s.genre == t.genre

abbrev same_rest : NewGitStatus → NewGitStatus → Bool
same_rest s t = s.state == t.state && s.description == t.description

NewGitStatus-path :
    (s t : NewGitStatus)
    → (s.name ≡ t.name) × (s.genre ≡ t.genre)
    → (s.state ≡ t.state) × (s.description ≡ t.description)
    → s ≡ t
NewGitStatus-path s t (name, genre) (state, description) =
    λ i. record { description = description i; state = state i; genre = genre i; name = name i }

same_rest_iff : (s t : NewGitStatus) → same_context s t ≡ true → (same_rest s t ≡ true) ↔ (s ≡ t)
same_rest_iff s t about = (
  λ h.
      NewGitStatus-path s t ((texts_iff s.name t.name s.genre t.genre).0 about)
        ((texts_iff s.state t.state s.description t.description).0 h),
  λ h.
      (texts_iff s.state t.state s.description t.description).1
        (ap (λ r. r.state) h, ap (λ r. r.description) h),
)

duplicate_cons :
    (r : GitStatus) (rs : List GitStatus) (n : NewGitStatus)
    → duplicate_azure_status (r ∷ rs) n
      ≡ turn same_context same_rest n (duplicate_azure_status rs n) (full_status r)
unfolding duplicate_azure_status
duplicate_cons r rs n = elim (Option-cases (full_status r)) [
  | inl missing ↦ rw (duplicate_azure_status, missing) refl
  | inr (m, full) ↦ rw (duplicate_azure_status, full) refl
]

unfoldable azure_loop : Loop GitStatus NewGitStatus
unfolding duplicate_azure_status full_status
azure_loop = record {
  texts = full_status;
  about = same_context;
  same = same_rest;
  duplicate = duplicate_azure_status;
  duplicate_nil = λ n. refl;
  duplicate_cons = duplicate_cons;
  about_self = λ n. (texts_iff n.name n.name n.genre n.genre).1 (refl, refl);
  same_iff = same_rest_iff;
}

duplicate_of_items :
    (statuses : Option (List GitStatus)) (n : NewGitStatus)
    → duplicate_azure_dev_ops_status statuses n ≡ azure_loop.duplicate (items statuses) n
unfolding duplicate_azure_dev_ops_status duplicate_azure_status azure_loop
duplicate_of_items none n = refl
duplicate_of_items (some statuses) n = refl

module _ {S C Pool : Type 0} (tools : Tools S Pool) (azure : AzureApi S C Pool)
    (a : AzureDevOps C) where
  -- The host's answer with the statuses of a commit.
  abbrev pub list_at : String → Action S (Option (List GitStatus))
  list_at rev = azure.get_statuses a.client a.project a.repo rev

  abbrev pub create_at : String → NewGitStatus → Action S (Unit {0})
  create_at rev n = azure.create_commit_status a.client a.project a.repo rev n

  -- Listing leaves the host's state, and what was created is listed first.
  abbrev pub IsOrdered : Type 0
  IsOrdered =
      ((rev : String) (s : S) → (list_at rev s).0 ≡ s)
      × ((rev : String) (n : NewGitStatus) (s t : S)
          → create_at rev n s ≡ (t, ok tt)
          → ShowsFirst items (list_at rev) (listed n) t)

  -- The latest of the complete statuses with the name and the genre of a status is this status.
  abbrev pub IsLatest : String → NewGitStatus → S → Type 0
  IsLatest rev n = IsLatestAt items (list_at rev) full_status same_context n

  posted-IsLatest :
      IsOrdered
      → (rev : String) (n : NewGitStatus) (before after : S)
      → post_azure_status tools azure a rev n before ≡ (after, ok tt)
      → IsLatest rev n after
  unfolding post_azure_status azure_loop full_status
  posted-IsLatest ordered rev n before after h =
      let list = wrap_action "could not list commit statuses: " (list_at rev) in
      let create = wrap_action "could not create commit status: " (create_at rev n) in
      post_status-IsLatestAt azure_loop items (list_at rev) n (listed n) refl
        "could not list commit statuses: " create (ordered.0 rev)
        (λ s t created. ordered.1 rev n s t (wrap_second-eq-ok _ _ _ _ created)) before after
        (subst (λ d. post_unless list d create before ≡ (after, ok tt))
          (λ i statuses. duplicate_of_items statuses n i) h)

  -- Where the host lists without a change, and lists first what was created, and an event that is
  -- not progressing was posted without an error, its status is the latest of the complete statuses
  -- with its name and genre that the host lists.
  pub post_azure_dev_ops-IsLatest :
      (event : Event) (before after : S)
      → IsOrdered
      → tools.api.has_reason event tools.api.progressing_reason ≡ false
      → post_azure_dev_ops tools azure a event before ≡ (after, ok tt)
      → (made : String × NewGitStatus) × (azure_dev_ops_status tools azure a event ≡ ok made)
        × IsLatest made.0 made.1 after
  unfolding post_azure_dev_ops
  post_azure_dev_ops-IsLatest event before after ordered other h =
      let (made, same, posted) =
        lift-eq-ok (azure_dev_ops_status tools azure a event)
          (λ made. post_azure_status tools azure a made.0 made.1) before after (rw other at h) in
      (made, same, posted-IsLatest ordered made.0 made.1 before after posted)
