-- ===== src/Notifier/Gitea/Laws.antt =====
-- What is a duplicate of a commit status for internal/notifier/gitea.go, and what the host lists
-- after a post.
use notification_controller.Prelude.{
  ap, subst, ◌∙◌, inl, inr, String, ◌==◌, ◌||◌, ◌&&◌, ◌≡◌, ◌≢◌, ◌↔◌, refl, Bool, true, Bool-cases,
  if◌then◌else◌, List, [], ◌∷◌, Option, none, some, ok, err, arith, eq_iff, texts_iff, eq_refl,
  >>=-eq-ok, ne_of_test,
}
use notification_controller.Prelude.Actions.{Action, wrap_action}
use notification_controller.Api.Event.{Event}
use notification_controller.Notifier.Tools.{Tools}
use notification_controller.Notifier.Status.{post_unless, parse_revision, revision_of}
use notification_controller.Notifier.Status.Latest.{
  Loop, turn, ShowsFirst, IsLatestAt, post_status-IsLatestAt,
}
use notification_controller.Notifier.Gitea.{
  StatusState, pending, success, failure, other, state_text, GiteaStatus, CreateStatusOption,
  GiteaApi, Gitea, duplicate_gitea_status, to_gitea_state, gitea_status, post_gitea_status,
  post_gitea,
}

-- The texts of a status.
pub record Texts : Type 0 where
  pub context : String
  pub state : String
  pub description : String

-- A status in the form in which the host lists it, and its texts.
abbrev pub listed : CreateStatusOption → GiteaStatus
listed status = record {
  state = status.state;
  context = status.context;
  description = status.description;
}

abbrev pub texts : GiteaStatus → Texts
texts s = record { context = s.context; state = state_text s.state; description = s.description }

-- The texts of a status that has the three.
abbrev pub texts_of : GiteaStatus → Option Texts
texts_of s =
    if s.context == "" || state_text s.state == "" || s.description == ""
    then none
    else some (texts s)

abbrev pub same_context : Texts → Texts → Bool
same_context s t = s.context == t.context

abbrev same_rest : Texts → Texts → Bool
same_rest s t = s.state == t.state && s.description == t.description

abbrev with_texts : Texts → CreateStatusOption
with_texts n = record {
  state = other n.state;
  target_url = "";
  description = n.description;
  context = n.context;
}

-- The loop looks at the texts alone.
duplicate_of_texts :
    (statuses : List GiteaStatus) (status : CreateStatusOption)
    → duplicate_gitea_status statuses status
      ≡ duplicate_gitea_status statuses (with_texts (texts (listed status)))
unfolding duplicate_gitea_status
duplicate_of_texts [] status = refl
duplicate_of_texts (s ∷ statuses) status = rw (duplicate_of_texts statuses status) refl

duplicate_cons :
    (r : GiteaStatus) (rs : List GiteaStatus) (n : Texts)
    → duplicate_gitea_status (r ∷ rs) (with_texts n)
      ≡ turn same_context same_rest n (duplicate_gitea_status rs (with_texts n)) (texts_of r)
unfolding duplicate_gitea_status
duplicate_cons r rs n =
    elim (Bool-cases (r.context == "" || state_text r.state == "" || r.description == "")) [
      | inl missing ↦ rw missing refl
      | inr full ↦ rw full refl
    ]

Texts-path :
    (s t : Texts)
    → s.context ≡ t.context
    → (s.state ≡ t.state) × (s.description ≡ t.description)
    → s ≡ t
Texts-path s t context (state, description) =
    λ i. record { context = context i; state = state i; description = description i }

same_rest_iff : (s t : Texts) → same_context s t ≡ true → (same_rest s t ≡ true) ↔ (s ≡ t)
same_rest_iff s t about = (
  λ h.
      Texts-path s t ((eq_iff s.context t.context).0 about)
        ((texts_iff s.state t.state s.description t.description).0 h),
  λ h.
      (texts_iff s.state t.state s.description t.description).1
        (ap (λ r. r.state) h, ap (λ r. r.description) h),
)

unfoldable gitea_loop : Loop GiteaStatus Texts
unfolding duplicate_gitea_status
gitea_loop = record {
  texts = texts_of;
  about = same_context;
  same = same_rest;
  duplicate = λ rs n. duplicate_gitea_status rs (with_texts n);
  duplicate_nil = λ n. refl;
  duplicate_cons = duplicate_cons;
  about_self = λ n. eq_refl n.context;
  same_iff = same_rest_iff;
}

texts_of-listed :
    (status : CreateStatusOption)
    → status.context ≢ ""
    → state_text status.state ≢ ""
    → status.description ≢ ""
    → texts_of (listed status) ≡ some (texts (listed status))
texts_of-listed status context state description = ground (
  arith,
  eq_iff status.context "",
  eq_iff (state_text status.state) "",
  eq_iff status.description "",
)

text_of_ok :
    (made state : StatusState) → state_text made ≢ "" → ok made ≡ ok state → state_text state ≢ ""
text_of_ok made state some_text h =
    let same : made ≡ state = cc in subst (λ st. state_text st ≢ "") same some_text

module _ {S C Pool : Type 0} (tools : Tools S Pool) (gitea : GiteaApi S C Pool) (g : Gitea C) where
  state_text-ne :
      (event : Event) (state : StatusState)
      → to_gitea_state tools gitea event ≡ ok state
      → state_text state ≢ ""
  unfolding to_gitea_state
  state_text-ne event state h =
      elim (Bool-cases (tools.api.has_reason event tools.api.progressing_reason)) [
        | inl progressing ↦
            text_of_ok pending state (ne_of_test "pending" "" refl) (rw progressing at h)
        | inr ended ↦ elim (Bool-cases (event.severity == tools.api.severity_info)) [
          | inl info ↦
              text_of_ok success state (ne_of_test "success" "" refl) (rw (ended, info) at h)
          | inr not_info ↦ elim (Bool-cases (event.severity == tools.api.severity_error)) [
            | inl failed ↦
                text_of_ok failure state (ne_of_test "failure" "" refl)
                  (rw (ended, not_info, failed) at h)
            | inr not_error ↦ let impossible = rw (ended, not_info, not_error) at h in cc
          ]
        ]
      ]

  gitea_status-state :
      (event : Event) (rev : String) (status : CreateStatusOption)
      → gitea_status tools gitea g event ≡ ok (rev, status)
      → to_gitea_state tools gitea event ≡ ok status.state
  unfolding gitea_status
  gitea_status-state event rev status h =
      let (rev_string, _, h1) = >>=-eq-ok (revision_of tools.api event) _ h in
      let (hash, _, h2) = >>=-eq-ok (parse_revision tools.git rev_string) _ h1 in
      let (state, converted, h3) = >>=-eq-ok (to_gitea_state tools gitea event) _ h2 in
      let same : state ≡ status.state =
        ap (λ r. elim r [ err _ ↦ state | ok made ↦ made.1.state ]) h3 in
      converted ∙ ap ok same

  -- The host's list of the statuses of a commit.
  abbrev pub list_at : String → Action S (List GiteaStatus)
  list_at rev = gitea.list_statuses g.client g.owner g.repo rev 0 50

  -- Listing leaves the host's state, and what was created is listed first.
  abbrev pub IsOrdered : Type 0
  IsOrdered =
      ((rev : String) (s : S) → (list_at rev s).0 ≡ s)
      × ((rev : String) (status : CreateStatusOption) (s t : S)
          → gitea.create_status g.client g.owner g.repo rev status s ≡ (t, ok tt)
          → ShowsFirst (λ rs. rs) (list_at rev) (listed status) t)

  -- The latest of the complete statuses with the context of a status has its texts.
  abbrev pub IsLatest : String → CreateStatusOption → S → Type 0
  IsLatest rev status =
      IsLatestAt (λ rs. rs) (list_at rev) texts_of same_context (texts (listed status))

  posted-IsLatest :
      IsOrdered
      → (rev : String) (status : CreateStatusOption) (before after : S)
      → texts_of (listed status) ≡ some (texts (listed status))
      → post_gitea_status tools gitea g rev status before ≡ (after, ok tt)
      → IsLatest rev status after
  unfolding post_gitea_status gitea_loop
  posted-IsLatest ordered rev status before after whole h =
      let list = wrap_action "could not list commit statuses: " (list_at rev) in
      let create = gitea.create_status g.client g.owner g.repo rev status in
      post_status-IsLatestAt gitea_loop (λ rs. rs) (list_at rev) (texts (listed status))
        (listed status) whole "could not list commit statuses: " create (ordered.0 rev)
        (ordered.1 rev status) before after
        (subst (λ d. post_unless list d create before ≡ (after, ok tt))
          (λ i statuses. duplicate_of_texts statuses status i) h)

  -- Where the host lists without a change, and lists first what was created, and an event whose
  -- status has a context and a description was posted without an error, the texts of this status,
  -- of a progressing event too, are those of the latest of the complete statuses with its context
  -- that the host lists.
  pub post_gitea-IsLatest :
      (event : Event) (rev : String) (status : CreateStatusOption) (before after : S)
      → IsOrdered
      → gitea_status tools gitea g event ≡ ok (rev, status)
      → status.context ≢ ""
      → status.description ≢ ""
      → post_gitea tools gitea g event before ≡ (after, ok tt)
      → IsLatest rev status after
  unfolding post_gitea
  post_gitea-IsLatest event rev status before after ordered made context description h =
      posted-IsLatest ordered rev status before after
        (texts_of-listed status context
          (state_text-ne event status.state (gitea_status-state event rev status made)) description)
        (rw made at h)
