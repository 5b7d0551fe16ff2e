-- ===== src/Demo/Bounds.antt =====
-- The caps of the stores of src/api/demo_routes.py.
use autonomous_sales_agent.Prelude.{
  ℕ, ◌+◌, ◌≤◌, String, true, ◌≡◌, refl, ap, Option, none, some, List, [], ◌∷◌, ◌++◌, length,
  length-snoc, leb, is_some, arith, eq_iff, Bool-cases, inl, inr,
}
use autonomous_sales_agent.Float.{Floating}
use autonomous_sales_agent.Dict.{lookup, insert, remove}
use autonomous_sales_agent.Gates.Reads.{Patterns}
use autonomous_sales_agent.Tracker.Cues.{Cues}
use autonomous_sales_agent.Knowledge.{Texts}
use autonomous_sales_agent.Consent.{MinorCues}
use autonomous_sales_agent.Consent.Pii.{Redactors}
use autonomous_sales_agent.Session.{RetrieveCues}
use autonomous_sales_agent.Demo.{
  DemoCall, Response, Service, Stores, EndResult, move_to_end, pop_over, remember_ended,
  consent_start, consent_respond, livekit_token, session_end, end_result, on_call, touch, evict,
  changed, new_call,
}
use autonomous_sales_agent.Demo.Chats.{
  Request, starts, responds, chats, asks_token, ends, chat, serve, serve_all,
}

module _ {ℓ} {V : Type ℓ} where
  length-remove : (k : String) (d : List (String × V)) → length (remove k d) ≤ length d
  unfolding remove
  length-remove k [] = omega arith
  length-remove k ((name, v) ∷ d) = ground (arith, length-remove k d)

  length-remove-found :
      (k : String) (d : List (String × V))
      → is_some (lookup k d) ≡ true
      → length (remove k d) + 1 ≤ length d
  unfolding remove lookup
  length-remove-found k [] h = ground arith
  length-remove-found k ((name, v) ∷ d) h =
      ground (arith, length-remove k d, length-remove-found k d)

  length-insert :
      (k : String) (v : V) (d : List (String × V)) → length (insert k v d) ≤ length d + 1
  unfolding insert
  length-insert k v [] = omega arith
  length-insert k v ((name, old) ∷ d) = ground (arith, length-insert k v d)

  length-insert-found :
      (k : String) (v : V) (d : List (String × V))
      → is_some (lookup k d) ≡ true
      → length (insert k v d) ≡ length d
  unfolding insert lookup
  length-insert-found k v [] h = ground arith
  length-insert-found k v ((name, old) ∷ d) h = ground (arith, length-insert-found k v d)

  -- a key that is put last is there
  lookup-snoc :
      (k : String) (v : V) (d : List (String × V)) → is_some (lookup k (d ++ ((k, v) ∷ []))) ≡ true
  unfolding lookup
  lookup-snoc k v [] = ground (arith, eq_iff k k)
  lookup-snoc k v ((name, old) ∷ d) = ground (arith, lookup-snoc k v d)

  -- a touch keeps the length, and the key that is touched
  move_to_end-keeps :
      (k : String) (d : List (String × V))
      → (length (move_to_end k d) ≤ length d)
        × (is_some (lookup k d) ≡ true → is_some (lookup k (move_to_end k d)) ≡ true)
  unfolding move_to_end
  move_to_end-keeps k d = by_key (lookup k d) refl
    where
      by_key :
          (found : Option V)
          → lookup k d ≡ found
          → let moved : List (String × V) = elim found [
            | none ↦ d
            | some value ↦ remove k d ++ ((k, value) ∷ [])
          ] in
            (length moved ≤ length d)
            × (is_some (lookup k d) ≡ true → is_some (lookup k moved) ≡ true)
      by_key none e = (omega arith, λ h. h)
      by_key (some v) e =
          let shorter = length-remove-found k d (ap is_some e) in
          let one = length-snoc (remove k d) (k, v) in
          (omega arith, λ h. lookup-snoc k v (remove k d))

  length-pop_over : (max : ℕ) (d : List (String × V)) → length (pop_over max d) ≤ max
  unfolding pop_over
  length-pop_over max [] = omega arith
  length-pop_over max (x ∷ d) = ground (arith, length-pop_over max d)

module _ {F : Type 0} where
  -- neither store is over the cap
  abbrev pub IsBounded : Service F → Stores F → Type 0
  IsBounded svc st =
      (length st.sessions ≤ svc.max_sessions) × (length st.ended_results ≤ svc.max_sessions)

  on_call-IsBounded :
      (svc : Service F) (st : Stores F) (id : String) (f : DemoCall F → Response × Stores F)
      → IsBounded svc st
      → ((call : DemoCall F) → is_some (lookup id st.sessions) ≡ true → IsBounded svc (f call).1)
      → IsBounded svc (on_call st id f).1
  on_call-IsBounded svc st id f b h = by_call (lookup id st.sessions) refl
    where
      by_call :
          (found : Option (DemoCall F))
          → lookup id st.sessions ≡ found
          → let out : Response × Stores F = elim found [
            | none ↦ (Response.not_found, st)
            | some call ↦ f call
          ] in
            IsBounded svc out.1
      by_call none e = b
      by_call (some call) e = h call (ap is_some e)

  changed-IsBounded :
      (svc : Service F) (st : Stores F) (id : String) (out : Response × DemoCall F)
      → IsBounded svc st
      → is_some (lookup id st.sessions) ≡ true
      → IsBounded svc (changed (touch st id) id out).1
  changed-IsBounded svc st id out b h =
      let kept = move_to_end-keeps id st.sessions in
      let same = length-insert-found id out.1 (move_to_end id st.sessions) (kept.1 h) in
      (omega arith, b.1)

  evict-IsBounded :
      (svc : Service F) (st : Stores F) (id : String) (result : EndResult)
      → IsBounded svc st
      → IsBounded svc (evict svc (touch st id) id result).1
  unfolding remember_ended
  evict-IsBounded svc st id result b =
      let kept = move_to_end-keeps id st.sessions in
      let less = length-remove id (move_to_end id st.sessions) in
      (
        omega arith,
        length-pop_over svc.max_sessions (move_to_end id (insert id result st.ended_results)),
      )

  session_end-IsBounded :
      (svc : Service F) (st : Stores F) (id : String) (raw_phone : Option String)
      → IsBounded svc st
      → IsBounded svc (session_end svc st id raw_phone).1
  unfolding session_end
  session_end-IsBounded svc st id raw_phone b =
      let found =
        on_call-IsBounded svc st id
          (λ call. evict svc (touch st id) id (end_result svc call raw_phone)) b
          (λ call h. evict-IsBounded svc st id (end_result svc call raw_phone) b) in
      ground (arith, found, b)

  consent_start-IsBounded :
      (svc : Service F) (st : Stores F) (id jurisdiction channel : String)
      → IsBounded svc st
      → IsBounded svc (consent_start svc st id jurisdiction channel).1
  unfolding consent_start
  consent_start-IsBounded svc st id jurisdiction channel b =
      elim (Bool-cases (leb svc.max_sessions (length st.sessions))) [
        | inl e ↦ rw e b
        | inr e ↦
            let grown = length-insert id (new_call svc jurisdiction channel) st.sessions in
            rw e (ground arith, b.1)
      ]

module _ {F : Type 0} ⦃fl : Floating F⦄ ⦃texts : Texts⦄ ⦃r : Redactors⦄ ⦃cues : Cues⦄
    ⦃pt : Patterns⦄ ⦃rc : RetrieveCues⦄ ⦃minors : MinorCues⦄ where
  serve-IsBounded :
      (svc : Service F) (st : Stores F) (request : Request)
      → IsBounded svc st
      → IsBounded svc (serve svc st request).1
  unfolding serve
  serve-IsBounded svc st (starts id jurisdiction channel) b =
      consent_start-IsBounded svc st id jurisdiction channel b
  serve-IsBounded svc st (responds id req) b =
      on_call-IsBounded svc st id (λ call. changed (touch st id) id (consent_respond svc call req))
        b (λ call h. changed-IsBounded svc st id (consent_respond svc call req) b h)
  serve-IsBounded svc st (chats id text) b =
      on_call-IsBounded svc st id (λ call. changed (touch st id) id (chat svc call text)) b
        (λ call h. changed-IsBounded svc st id (chat svc call text) b h)
  serve-IsBounded svc st (asks_token id identity) b =
      on_call-IsBounded svc st id (λ call. (livekit_token svc call, touch st id)) b
        (λ call h. let kept = move_to_end-keeps id st.sessions in (omega arith, b.1))
  serve-IsBounded svc st (ends id raw_phone) b = session_end-IsBounded svc st id raw_phone b

  -- Whatever requests come, each of the two stores keeps to the cap: from stores that do.
  pub serve_all-IsBounded :
      (svc : Service F) (st : Stores F) (requests : List Request)
      → IsBounded svc st
      → IsBounded svc (serve_all svc st requests)
  unfolding serve_all
  serve_all-IsBounded svc st [] b = b
  serve_all-IsBounded svc st (request ∷ requests) b =
      serve_all-IsBounded svc (serve svc st request).1 requests (serve-IsBounded svc st request b)
