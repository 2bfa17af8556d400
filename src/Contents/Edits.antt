-- ===== src/Contents/Edits.antt =====
-- What `update` and `create` do.
pub mod Checks
use Prim.Native.String.{String}
use ai_content_operating_sys.Base.{
  not-eq-false, ℕ, ◌≡◌, refl, sym, ap, ◌∙◌, Bool, true, false, not, ◌&&◌, ◌||◌, List, ◌∷◌, any,
  Option, get_or, [], ◌==◌, arith, subst, and-true, inl, inr, is, is_some,
}
use ai_content_operating_sys.Errors.{
  Result, ok, Failure, Action, steps, and_then-Steps, passed, commit-eq-ok, catch-cases, rescue,
}
use ai_content_operating_sys.Errors.Atomic.{read_only}
use ai_content_operating_sys.Text.{Text, optional_text}
use ai_content_operating_sys.Audit.{Quiet, record_audit-Quiet, pure-Quiet, then_Quiet, finished}
use ai_content_operating_sys.Auth.Permissions.{
  Permission, includes, contents_update, contents_seo_update, contents_assign,
}
use ai_content_operating_sys.Auth.Types.{AuthContext, WorkspaceContext}
use ai_content_operating_sys.Database.Client.{Client}
use ai_content_operating_sys.Database.ContentRows.{ContentItem, item_clash, revision_clash}
use ai_content_operating_sys.Database.Store.{Store, content_item, content_revision}
use ai_content_operating_sys.Database.Laws.{create_done}
use ai_content_operating_sys.Contents.Domain.Status.{archived, one_of, same}
use ai_content_operating_sys.Contents.Domain.Html.{HtmlLibrary}
use ai_content_operating_sys.Contents.Fields.{
  handle_write_error, normalized_title, valid_slug, valid_html, valid_labels,
}
use ai_content_operating_sys.Contents.Rules.{
  assert_writer_can_edit, is_writer, writer_editable_statuses, require_permission,
}
use ai_content_operating_sys.Contents.Revisions.{
  Draws, snapshot, create_revision, audit_content, audit_revision, audit_revision_and_change,
}
use ai_content_operating_sys.Contents.Editing.{
  CreateContent, UpdateContent, Validated, changed_general, changed_seo, assignment_changed, when,
  validate_update, check_update, apply_update, may_create_as, new_item, write_new, create_content,
  audit_update, update,
}
use ai_content_operating_sys.Contents.Versioning.{
  UniqueIds, claimed, Versioned, Versioned-SameData, SameBesidesContent, audited_write, scoped_same,
  find_content_found, update_with_revision-Versioned,
}
use ai_content_operating_sys.Contents.Rollback.Checks.{
  validate_update-Reads, normalized_title-Reads, valid_slug-Reads, valid_html-Reads,
  valid_labels-Reads,
}
use ai_content_operating_sys.Contents.Rollback.Reads.{validate_references-Reads}
use ai_content_operating_sys.Contents.Rollback.Requests.{require_website-Reads}
use ai_content_operating_sys.Contents.Edits.Checks.{
  always_throws, not_handled, MayUpdate, permitted_when, writer_rules, check_update-MayUpdate,
  when-Quiet, audit_content-Quiet, audit_revision_and_change-Quiet, audit_update-Quiet,
}

module _ (db : Client) (lib : HtmlLibrary) (draws : Draws) (actor : AuthContext)
    (workspace : WorkspaceContext) (website_id : ℕ) where
  pub update_lem :
      (content_id : ℕ) (i : UpdateContent) {s t : Store} {after : ContentItem}
      → UniqueIds s.items
      → update db lib draws actor workspace website_id content_id i s ≡ (ok after, t)
      → (before : ContentItem) × (v : Validated) × Versioned
          (claimed workspace.id website_id content_id i.expected_version)
          (apply_update lib i v)
          (snapshot draws.revision_id after actor.user_id (optional_text i.change_reason))
          s
          t
          before
          after
        × (validate_update lib i s ≡ (ok v, s))
        × MayUpdate actor.user_id workspace i before
        × SameBesidesContent s t
  unfolding update
  update_lem content_id i {s} {t} {after} unique h = elim (and_then-Steps _ _ h) [
    | steps current s₁ e₁ h₁ ↦ elim (and_then-Steps _ _ h₁) [
      | steps _ s₂ e₂ h₂ ↦ elim (and_then-Steps _ _ h₂) [
        | steps _ s₃ e₃ h₃ ↦ elim (and_then-Steps _ _ h₃) [
          | steps v s₄ e₄ h₄ ↦ elim (and_then-Steps _ _ (not_handled _ h₄)) [
            | steps updated s₅ e₅ h₅ ↦
                let (m, here, q₁) = find_content_found db workspace.id website_id content_id e₁ in
                let (may, q₂) = check_update-MayUpdate actor workspace i current e₂ in
                let q₃ : s₃ ≡ s₂ = read_only _ (validate_references-Reads db _ _ _ _) e₃ in
                let q₄ : s₄ ≡ s₃ = read_only _ (validate_update-Reads lib i) e₄ in
                let (p, quiet) =
                  finished _ updated
                    (audit_update-Quiet db lib draws actor.user_id workspace.id website_id
                      content_id i updated)
                    h₅ in
                let back : s₄ ≡ s = q₄ ∙ q₃ ∙ q₂ ∙ q₁ in
                let (before, w, rest) =
                  update_with_revision-Versioned db draws workspace.id website_id content_id
                    i.expected_version (apply_update lib i v) actor.user_id i.change_reason {s = s}
                    {t = s₅} {after = after} unique (rw (← back, ← p) e₅) in
                let q : current ≡ before =
                  scoped_same workspace.id website_id content_id current before unique m w.was_there
                    here (and-true _ _ w.was_claimed).0 in
                (
                  before,
                  v,
                  Versioned-SameData w quiet,
                  rw (q₃ ∙ q₂ ∙ q₁, back) at e₄,
                  subst (MayUpdate actor.user_id workspace i) q may,
                  audited_write rest quiet,
                )
          ]
        ]
      ]
    ]
  ]

  -- What `create` leaves.
  pub record Created (i : CreateContent) (s t : Store) (item : ContentItem) : Type 0 where
    pub valid_title : Text
    pub checked_slug : Text
    pub valid_body : Text
    pub checked_labels : List Text
    pub title_checked : normalized_title i.title s ≡ (ok valid_title, s)
    pub slug_checked : valid_slug lib.unicode (get_or i.slug valid_title) s ≡ (ok checked_slug, s)
    pub body_checked : valid_html lib i.html_content s ≡ (ok valid_body, s)
    pub labels_checked : valid_labels lib.unicode (get_or i.labels []) s ≡ (ok checked_labels, s)
    pub is_new :
        item
        ≡ new_item lib draws.item_id actor.user_id workspace.id website_id i valid_title
            checked_slug valid_body checked_labels
    pub free : any (item_clash item) s.items ≡ false
    pub items : t.items ≡ item ∷ s.items
    pub revisions :
        t.revisions
        ≡ snapshot draws.revision_id item actor.user_id (optional_text i.change_reason)
          ∷ s.revisions
    pub early : may_create_as i.editorial_status ≡ true
    pub assignment :
        is_some i.assigned_to_user_id ≡ true → includes workspace.permissions contents_assign ≡ true
    pub others : SameBesidesContent s t

  write_new_lem :
      (item : ContentItem) (reason : Option Text) {s t : Store} {made : ContentItem}
      → write_new db lib draws item actor.user_id reason s ≡ (ok made, t)
      → (made ≡ item)
        × (any (item_clash item) s.items ≡ false)
        × (t ≡ record s {
          items = item ∷ s.items;
          revisions =
              snapshot draws.revision_id item actor.user_id (optional_text reason) ∷ s.revisions;
        })
  unfolding write_new create_revision
  write_new_lem item reason {s} {t} {made} h = elim (and_then-Steps _ _ (commit-eq-ok _ _ h)) [
    | steps created u e k ↦ elim (and_then-Steps _ _ k) [
      | steps _ w d done ↦
          let (same_item, q₁, free) = create_done db content_item item_clash item e in
          let (_, q₂, _) = create_done db content_revision revision_clash _ d in
          let p : created ≡ made = cc in
          let q : w ≡ t = cc in
          let add : Store → Store = λ z. record z {
            revisions =
                snapshot draws.revision_id item actor.user_id (optional_text reason) ∷ z.revisions;
          } in
          let q₂' : w ≡ add u = rw same_item at q₂ in
          (sym p ∙ same_item, free, sym q ∙ q₂' ∙ ap add q₁)
    ]
  ]

  pub create_content_lem :
      (i : CreateContent) {s t : Store} {item : ContentItem}
      → create_content db lib draws actor workspace website_id i s ≡ (ok item, t)
      → Created i s t item
  unfolding create_content
  create_content_lem i {s} {t} {item} h = elim (and_then-Steps _ _ h) [
    | steps _ s₁ e₁ h₁ ↦ elim (and_then-Steps _ _ h₁) [
      | steps _ s₂ e₂ h₂ ↦ elim (and_then-Steps _ _ h₂) [
        | steps _ s₃ e₃ h₃ ↦ elim (and_then-Steps _ _ h₃) [
          | steps _ s₄ e₄ h₄ ↦ elim (and_then-Steps _ _ h₄) [
            | steps title s₅ e₅ h₅ ↦ elim (and_then-Steps _ _ h₅) [
              | steps slug s₆ e₆ h₆ ↦ elim (and_then-Steps _ _ h₆) [
                | steps body s₇ e₇ h₇ ↦ elim (and_then-Steps _ _ h₇) [
                  | steps labels s₈ e₈ h₈ ↦ elim (and_then-Steps _ _ (not_handled _ h₈)) [
                    | steps created s₉ e₉ h₉ ↦
                        let q₁ =
                          read_only _ (require_website-Reads db lib draws workspace.id website_id)
                            e₁ in
                        let (assign, q₂) = permitted_when _ workspace contents_assign e₂ in
                        let (early, q₃) = passed _ _ e₃ in
                        let q₄ = read_only _ (validate_references-Reads db _ _ _ _) e₄ in
                        let q₅ = read_only _ (normalized_title-Reads lib i.title) e₅ in
                        let q₆ = read_only _ (valid_slug-Reads lib lib.unicode _) e₆ in
                        let q₇ = read_only _ (valid_html-Reads lib i.html_content) e₇ in
                        let q₈ = read_only _ (valid_labels-Reads lib lib.unicode _) e₈ in
                        let back₄ : s₄ ≡ s = q₄ ∙ q₃ ∙ q₂ ∙ q₁ in
                        let back₅ : s₅ ≡ s = q₅ ∙ back₄ in
                        let back₆ : s₆ ≡ s = q₆ ∙ back₅ in
                        let back₇ : s₇ ≡ s = q₇ ∙ back₆ in
                        let back : s₈ ≡ s = q₈ ∙ q₇ ∙ q₆ ∙ q₅ ∙ q₄ ∙ q₃ ∙ q₂ ∙ q₁ in
                        let fresh =
                          new_item lib draws.item_id actor.user_id workspace.id website_id i title
                            slug body labels in
                        let (made, free, grown) =
                          write_new_lem fresh i.change_reason {s = s} {t = s₉} (rw back at e₉) in
                        let (p, quiet) =
                          finished _ created
                            (audit_revision_and_change-Quiet db _ created actor.user_id) h₉ in
                        let is_new : item ≡ fresh = sym p ∙ made in
                        record {
                          valid_title = title;
                          checked_slug = slug;
                          valid_body = body;
                          checked_labels = labels;
                          title_checked = rw (back₅, back₄) at e₅;
                          slug_checked = rw (back₆, back₅) at e₆;
                          body_checked = rw (back₇, back₆) at e₇;
                          labels_checked = rw (back, back₇) at e₈;
                          is_new = is_new;
                          free = subst (λ z. any (item_clash z) s.items ≡ false) (sym is_new) free;
                          items =
                              ap (λ z. z.items) quiet.others
                              ∙ ap (λ z. z.items) grown
                              ∙ ap (λ z. z ∷ s.items) (sym is_new);
                          revisions =
                              ap (λ z. z.revisions) quiet.others
                              ∙ ap (λ z. z.revisions) grown
                              ∙ ap
                                  (λ z.
                                    snapshot draws.revision_id z actor.user_id
                                      (optional_text i.change_reason)
                                    ∷ s.revisions)
                                  (sym is_new);
                          early = not-eq-false _ early;
                          assignment = assign;
                          others = audited_write (rw grown refl) quiet;
                        }
                  ]
                ]
              ]
            ]
          ]
        ]
      ]
    ]
  ]
