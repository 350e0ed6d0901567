-- ===== src/AllSource/Worker/Agreement.antt =====
-- crates/rv2-allsource/src/workers.rs: the worker and the fold on read see the same posts.
use rust_v.Prelude.{
  ◌≡◌, inl, inr, refl, sym, ap, ◌∙◌, Bool, true, false, Option, some, List, [], ◌∷◌, arith, ◌==◌,
  ==_iff, Bool-cases, All, Option-cases,
}
use rust_v.Prelude.Dict
use rust_v.Prelude.Dict.{get-empty}
use rust_v.Prelude.Text.{str_eq, str_eq_iff}
use rust_v.Events.Payload.{Items}
use rust_v.Events.{
  Uuid, Formats, DomainEvent, user_registered, user_profile_updated, post_created, post_edited,
  post_deleted, post, stream, stream_id, stream_kind, aggregate_id,
}
use rust_v.Events.Streams.{stream_inj}
use rust_v.ApiTypes.{PostView}
use rust_v.AllSource.{SdkEvent, decode_or_warn, fold_events}
use rust_v.AllSource.Folders.{PostFolder, new_post_folder, apply_post, finalize_post, post_folder}
use rust_v.AllSource.Posts.{Foreign, run_post, decoded, apply_all-run_post}
use rust_v.AllSource.Worker.{PostsReadModel, apply_post_event, run_worker}
use rust_v.AllSource.Worker.Own.{of_stream, own, own-skip, own-cons}
use rust_v.AllSource.Worker.Step.{
  next, IsKeyed, IsAddressed, Foreign-cases, apply_post_event-get, apply_post_event-Foreign,
  apply_post_event-IsKeyed,
}

abbrev pub is_created : DomainEvent → Bool
is_created (post_created _ _ _ _ _) = true
is_created _ = false

abbrev pub is_deleted : DomainEvent → Bool
is_deleted (post_deleted _ _) = true
is_deleted _ = false

abbrev pub NoneCreated : List DomainEvent → Type 0
NoneCreated es = All (λ e. is_created e ≡ false) es

-- No creation follows a deletion.
abbrev pub IsSettled : List DomainEvent → Type 0
IsSettled [] = Unit
IsSettled (e ∷ es) = (is_deleted e ≡ true → NoneCreated es) × IsSettled es

-- On an event that creates nothing after a deletion, the worker's rule is the folder's.
next-finalize_post :
    (f : PostFolder) (e : DomainEvent)
    → (f.deleted ≡ true → is_created e ≡ false)
    → next (finalize_post f) e ≡ finalize_post (apply_post f e).0
unfolding finalize_post apply_post
next-finalize_post f (post_created id author_id title content at) h = ground arith
next-finalize_post f (post_edited id at title content) h = ground arith
next-finalize_post f (post_deleted id at) h = ground arith
next-finalize_post f (user_registered _ _ _ _ _) h = ground arith
next-finalize_post f (user_profile_updated _ _ _ _) h = ground arith

apply_post-Foreign : (f : PostFolder) (e : DomainEvent) → Foreign (some e) → (apply_post f e).0 ≡ f
unfolding apply_post stream_kind
apply_post-Foreign f (user_registered _ _ _ _ _) h = refl
apply_post-Foreign f (user_profile_updated _ _ _ _) h = refl
apply_post-Foreign f (post_created _ _ _ _ _) h = cc
apply_post-Foreign f (post_edited _ _ _ _) h = cc
apply_post-Foreign f (post_deleted _ _) h = cc

deleted-apply_post :
    (f : PostFolder) (e : DomainEvent) (es : List DomainEvent)
    → (f.deleted ≡ true → NoneCreated (e ∷ es))
    → (is_deleted e ≡ true → NoneCreated es)
    → (apply_post f e).0.deleted ≡ true
    → NoneCreated es
unfolding apply_post
deleted-apply_post f (post_deleted id at) es h k d = k refl
deleted-apply_post f (post_created _ _ _ _ _) es h k d = (h d).1
deleted-apply_post f (post_edited _ _ _ _) es h k d = (h d).1
deleted-apply_post f (user_registered _ _ _ _ _) es h k d = (h d).1
deleted-apply_post f (user_profile_updated _ _ _ _) es h k d = (h d).1

module _ (F : Formats) (read_array : Items → Option DomainEvent) (id : Uuid) where
  -- An event of a post stands on the stream of `id` exactly when it is about `id`.
  same-stream :
      (event : SdkEvent) (e : DomainEvent)
      → event.entity_id ≡ stream_id F e
      → stream_kind e ≡ post
      → str_eq event.entity_id (stream F post id) ≡ (aggregate_id e == id)
  unfolding stream_id
  same-stream event e a k =
      rw (a, k)
        (ground (
          arith,
          str_eq_iff (stream F post (aggregate_id e)) (stream F post id),
          stream_inj F post post (aggregate_id e) id,
        ))

  module _ (state : PostsReadModel) (f : PostFolder) (event : SdkEvent) (log : List SdkEvent)
      (agrees : Dict.get state id ≡ finalize_post f)
      (late : f.deleted ≡ true → NoneCreated (own F read_array id (event ∷ log)))
      (settled : IsSettled (own F read_array id (event ∷ log))) where
    own-head :
        {e : DomainEvent}
        → own F read_array id (event ∷ log) ≡ e ∷ own F read_array id log
        → NoneCreated (own F read_array id (event ∷ log))
        → NoneCreated (e ∷ own F read_array id log)
    own-head cons h = rw cons at h

    -- The state of the folder behind one event, if it agrees with the worker's.
    Next : Type 0
    Next =
        (g : PostFolder) × (Dict.get (apply_post_event F read_array state event) id
          ≡ finalize_post g)
        × (g.deleted ≡ true → NoneCreated (own F read_array id log))
        × IsSettled (own F read_array id log)
        × (run_post f (own F read_array id (event ∷ log)) ≡ run_post g (own F read_array id log))

    skip-Next :
        own F read_array id (event ∷ log) ≡ own F read_array id log
        → Dict.get (apply_post_event F read_array state event) id ≡ Dict.get state id
        → Next
    unfolding Next
    skip-Next same kept = (f, kept ∙ agrees, λ d. rw same at (late d), rw same at settled, rw same)

    take-Next :
        (e : DomainEvent)
        → own F read_array id (event ∷ log) ≡ e ∷ own F read_array id log
        → Dict.get (apply_post_event F read_array state event) id ≡ finalize_post (apply_post f e).0
        → Next
    unfolding Next run_post
    take-Next e cons moved =
        let late' : (f.deleted ≡ true → NoneCreated (e ∷ own F read_array id log)) =
          λ d. rw cons at (late d) in
        let settled' : IsSettled (e ∷ own F read_array id log) = rw cons at settled in
        (
          (apply_post f e).0,
          moved,
          deleted-apply_post f e (own F read_array id log) late' settled'.0,
          settled'.1,
          rw cons,
        )

    Foreign-Next : Foreign (decode_or_warn F read_array event) → Next
    Foreign-Next h =
        let kept =
          ap (λ (s : PostsReadModel). Dict.get s id)
            (apply_post_event-Foreign F read_array state event h) in
        elim (Option-cases (decode_or_warn F read_array event)) [
          | inl bad ↦ skip-Next (own-skip F read_array id event log (inl bad)) kept
          | inr (e, d) ↦ elim (Bool-cases (str_eq event.entity_id (stream F post id))) [
            | inr other ↦ skip-Next (own-skip F read_array id event log (inr other)) kept
            | inl same ↦
                take-Next e (own-cons F read_array id event e log d same)
                  (kept ∙ agrees ∙ ap finalize_post (sym (apply_post-Foreign f e (rw d at h))))
          ]
        ]

    post-Next :
        IsKeyed state
        → (e : DomainEvent) → decode_or_warn F read_array event ≡ some e
        → stream_kind e ≡ post
        → event.entity_id ≡ stream_id F e
        → Next
    post-Next keyed e d k a =
        let moved = apply_post_event-get F read_array state event e id keyed d k a in
        elim (Bool-cases (aggregate_id e == id)) [
          | inr other ↦
              skip-Next (own-skip F read_array id event log (inr (same-stream event e a k ∙ other)))
                (rw other at moved)
          | inl same ↦
              let cons = own-cons F read_array id event e log d (same-stream event e a k ∙ same) in
              let first : (f.deleted ≡ true → is_created e ≡ false) =
                λ t. (own-head cons (late t)).0 in
              let at_id : aggregate_id e ≡ id = (==_iff (aggregate_id e) id).0 same in
              take-Next e cons (
                (rw same at moved)
                ∙ ap (λ (j : Uuid). next (Dict.get state j) e) at_id
                ∙ ap (λ (o : Option PostView). next o e) agrees
                ∙ next-finalize_post f e first)
        ]

    step-Next : IsKeyed state → IsAddressed F read_array event → Next
    step-Next keyed addressed = elim (Foreign-cases (decode_or_warn F read_array event)) [
      | inl h ↦ Foreign-Next h
      | inr (e, d, k) ↦ post-Next keyed e d k (addressed e d)
    ]

  worker-from :
      (state : PostsReadModel) (f : PostFolder) (log : List SdkEvent)
      → IsKeyed state
      → All (IsAddressed F read_array) log
      → Dict.get state id ≡ finalize_post f
      → (f.deleted ≡ true → NoneCreated (own F read_array id log))
      → IsSettled (own F read_array id log)
      → Dict.get (run_worker F read_array state log) id
        ≡ finalize_post (run_post f (own F read_array id log))
  unfolding run_worker own Next
  worker-from state f [] keyed addressed g late settled = unfold decoded run_post of_stream in g
  worker-from state f (event ∷ log) keyed (a, addressed) g late settled =
      let (g', moved, late', settled', same) = step-Next state f event log g late settled keyed a in
      worker-from (apply_post_event F read_array state event) g' log
        (apply_post_event-IsKeyed F read_array state event a keyed) addressed moved late' settled'
      ∙ ap finalize_post (sym same)

  -- After any log in which each event is on its own stream and no creation follows a deletion on the
  -- stream of `id`, the worker started from nothing holds for `id` what folding the stream of `id`
  -- on read yields, whatever the other events are.
  pub worker-eq-fold_on_read :
      (log : List SdkEvent)
      → All (IsAddressed F read_array) log
      → IsSettled (own F read_array id log)
      → Dict.get (run_worker F read_array Dict.empty log) id
        ≡ fold_events (post_folder F read_array) (of_stream F read_array id log)
  unfolding fold_events own
  worker-eq-fold_on_read log addressed settled =
      worker-from Dict.empty new_post_folder log (λ k v h. cc (get-empty {V = PostView} k))
        addressed (unfold finalize_post in get-empty id) (λ h. cc) settled
      ∙ ap finalize_post
          (sym (apply_all-run_post F read_array new_post_folder (of_stream F read_array id log)))
