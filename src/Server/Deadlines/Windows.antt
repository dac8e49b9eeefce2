-- ===== src/Server/Deadlines/Windows.antt =====
-- When a response gets past the deadline of its request.
use kora_db.Base.{
  ℕ, ◌+◌, ◌<◌, ◌≡◌, ◌⊎◌, refl, true, false, Option, none, some, leb, if◌then◌else◌, arith,
  Bool-cases, inl, inr,
}
use kora_db.Server.{Code, code_internal, code_deadline_exceeded, Response, served, refused}
use kora_db.Server.Deadlines.{
  RequestContext, with_timeout, is_sooner, or_refused, unless_over, deadline_interceptor,
}

module _ {A : Type 0} {T : Type 0} (handler : RequestContext → T → Response A × T) where
  refused_kept :
      (o : Option Code) (r : Response A × T) (a : A) (t : T)
      → or_refused handler o r ≡ (served a, t)
      → o ≡ none
  refused_kept none r a t h = refl
  refused_kept (some c) r a t h = absurd (cc)

  over_kept :
      (o : Option Code) (r : Response A × T) (t : T) (a : A) (t' : T)
      → unless_over handler o r t ≡ (served a, t')
      → o ≡ none
  over_kept none r t a t' h = refl
  over_kept (some c) r t a t' h = absurd (cc)

  in_time :
      (o : Option Code) (limit time : ℕ)
      → (elim o [
        | some c ↦ some c
        | none ↦ if leb limit time then some code_deadline_exceeded else none
      ])
        ≡ none
      → (time < limit) × (o ≡ none)
  in_time none limit time h = (ground (arith, h), refl)
  in_time (some c) limit time h = absurd (cc)

  unserved :
      (c : Code) (t t' : T) (a : A) → ◌≡◌ {A = Response A × T} (refused c, t) (served a, t') → ⊥
  unserved c t t' a h = cc

  -- Where DeadlineInterceptor answers with the response of a handler: its window is not 0, and either the
  -- request's own deadline is within the window and the context had no error at the call, or the handler
  -- returned before the window's end and the context had no error then.
  pub deadline_interceptor-in_time :
      (max_duration : ℕ) (ctx : RequestContext) (now done : ℕ) (t t' : T) (a : A)
      → deadline_interceptor handler max_duration ctx now done t ≡ (served a, t')
      → (0 < max_duration)
        × (((is_sooner ctx.deadline (now + max_duration) ≡ true) × (ctx.error_at now ≡ none))
            ⊎ ((is_sooner ctx.deadline (now + max_duration) ≡ false)
                × (done < now + max_duration)
                × (ctx.error_at done ≡ none)))
  unfolding deadline_interceptor
  deadline_interceptor-in_time max_duration ctx now done t t' a h =
      elim (Bool-cases (leb max_duration 0)) [
        | inl z ↦ absurd (unserved code_internal t t' a (rw z at h))
        | inr p ↦ (
          ground (arith, p),
          elim (Bool-cases (is_sooner ctx.deadline (now + max_duration))) [
            | inl s ↦ inl (s, over_kept (ctx.error_at now) (handler ctx t) t a t' (rw (p, s) at h))
            | inr s ↦
                let (early, alive) = in_time (ctx.error_at done) (now + max_duration) done (
                  refused_kept _ (handler (with_timeout ctx (now + max_duration)) t) a t'
                    (rw (p, s) at h)) in
                inr (s, early, alive)
          ],
        )
      ]
