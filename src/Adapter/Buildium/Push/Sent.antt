-- ===== src/Adapter/Buildium/Push/Sent.antt =====
-- What one POST and its retries send, and which answer a success comes from.
use pask_workspace.Prelude.{
  ℕ, ◌+◌, ◌≤◌, ◌≡◌, refl, sym, ap, subst, ◌∙◌, ◌⊎◌, inl, inr, arith, dec_lt, Result-cases, List, [],
  ◌∷◌, ◌++◌, append-nil, append_assoc, length, length-append, All, Text, Result, ok, err,
}
use pask_workspace.Wire.Json.{Json}
use pask_workspace.Adapter.Error.{AdapterError}
use pask_workspace.Adapter.Retry.{RetryPolicy}
use pask_workspace.Adapter.Retry.Attempts.{run_with_retry-zero}
use pask_workspace.Adapter.Retry.Invariant.{run_with_retry-LastCall}
use pask_workspace.Adapter.Buildium.{
  Deps, World, Credentials, HttpMethod, HttpRequest, HttpResponse, note_url, post_once, transmit,
  note_answer, post_request, parse_note_id,
}
use pask_workspace.Adapter.Buildium.Push.{sleep, post_with_retry}

module _ (deps : Deps) (policy : RetryPolicy) where
  -- A POST to the note URL of the property.
  abbrev pub IsNotePost : Text → HttpRequest → Type 0
  IsNotePost property_id r = (r.method ≡ HttpMethod.post) × (note_url deps property_id ≡ ok r.url)

  -- The network once it has answered these requests in turn.
  abbrev pub answered : List HttpRequest → deps.Net → deps.Net
  answered [] net = net
  answered (r ∷ rs) net = answered rs (deps.send r net).1

  -- What was sent from one world to another: at most `n` requests, all of them such POSTs; the network
  -- has answered them and has done nothing else.
  pub record Sent (property_id : Text) (n : ℕ) (w w' : World deps) : Type 0 where
    pub requests : List HttpRequest
    pub sent : w'.sent ≡ w.sent ++ requests
    pub net : w'.net ≡ answered requests w.net
    pub posts : All (IsNotePost property_id) requests
    pub count : length requests ≤ n

  pub Sent-none : (property_id : Text) (n : ℕ) (w : World deps) → Sent property_id n w w
  Sent-none property_id n w = record {
    requests = [];
    sent = sym (append-nil _);
    net = refl;
    posts = tt;
    count = omega arith;
  }

  All-snoc :
      (p : Text) (xs : List HttpRequest) (x : HttpRequest)
      → All (IsNotePost p) xs
      → IsNotePost p x
      → All (IsNotePost p) (xs ++ (x ∷ []))
  All-snoc p [] x h k = (k, tt)
  All-snoc p (y ∷ ys) x h k = (h.0, All-snoc p ys x h.1 k)

  answered-snoc :
      (xs : List HttpRequest) (x : HttpRequest) (net : deps.Net)
      → answered (xs ++ (x ∷ [])) net ≡ (deps.send x (answered xs net)).1
  answered-snoc [] x net = refl
  answered-snoc (y ∷ ys) x net = answered-snoc ys x (deps.send y net).1

  -- One request goes out, and the network answers it.
  abbrev IsOneMore : HttpRequest → World deps → World deps → Type 0
  IsOneMore r s s' = (s'.sent ≡ s.sent ++ (r ∷ [])) × (s'.net ≡ (deps.send r s.net).1)

  post_once-cases :
      (property_id : Text) (c : Credentials) (body : Json) (s : World deps)
      → ((post_once deps property_id c body s).1 ≡ s)
        ⊎ ((r : HttpRequest) × IsNotePost property_id r
            × IsOneMore r s (post_once deps property_id c body s).1)
  unfolding post_once transmit post_request
  post_once-cases property_id c body s = elim (Result-cases (note_url deps property_id)) [
    | inl (url, e) ↦
        inr (post_request deps url c body, (refl, e), (ground (arith, e), ground (arith, e)))
    | inr (x, e) ↦ inl (ground (arith, e))
  ]

  post_once-Sent :
      (property_id : Text) (c : Credentials) (body : Json) (j : ℕ) (w s : World deps)
      → Sent property_id j w s
      → Sent property_id (j + 1) w (post_once deps property_id c body s).1
  post_once-Sent property_id c body j w s h = elim (post_once-cases property_id c body s) [
    | inl same ↦ record {
      requests = h.requests;
      sent = ap (λ (x : World deps). x.sent) same ∙ h.sent;
      net = ap (λ (x : World deps). x.net) same ∙ h.net;
      posts = h.posts;
      count = omega (arith, h.count);
    }
    | inr (r, ours, (more, onward)) ↦ record {
      requests = h.requests ++ (r ∷ []);
      sent =
          more
          ∙ ap (λ (l : List HttpRequest). l ++ (r ∷ [])) h.sent
          ∙ append_assoc w.sent h.requests (r ∷ []);
      net =
          onward
          ∙ ap (λ (net : deps.Net). (deps.send r net).1) h.net
          ∙ sym (answered-snoc h.requests r w.net);
      posts = All-snoc property_id h.requests r h.posts ours;
      count = omega (arith, h.count, length-append h.requests (r ∷ []));
    }
  ]

  Sent-sleep :
      (p : Text) (n d : ℕ) (w w' : World deps) → Sent p n w w' → Sent p n w (sleep deps policy d w')
  unfolding sleep
  Sent-sleep p n d w w' h = record {
    requests = h.requests;
    sent = h.sent;
    net = h.net;
    posts = h.posts;
    count = h.count;
  }

  Sent-weaken : (p : Text) (n m : ℕ) (w w' : World deps) → n ≤ m → Sent p n w w' → Sent p m w w'
  Sent-weaken p n m w w' le h = record {
    requests = h.requests;
    sent = h.sent;
    net = h.net;
    posts = h.posts;
    count = omega (arith, h.count);
  }

  -- The remote side answered `r` with status 201 and the identifier.
  abbrev pub IsCreated : HttpRequest → deps.Net → Text → Type 0
  IsCreated r net id =
      (response : HttpResponse) × ((deps.send r net).0 ≡ ok response)
      × (response.status ≡ 201)
      × (parse_note_id deps response.body ≡ ok id)

  -- The last request sent from `w` to `w'` is a POST to the note URL, and the network, once it has
  -- answered those before it, answered this one with status 201 and the identifier.
  pub record IsAccepted (property_id : Text) (w w' : World deps) (id : Text) : Type 0 where
    pub before : List HttpRequest
    pub last : HttpRequest
    pub sent : w'.sent ≡ w.sent ++ (before ++ (last ∷ []))
    pub post : IsNotePost property_id last
    pub created : IsCreated last (answered before w.net) id
    pub net : w'.net ≡ (deps.send last (answered before w.net)).1

  note_answer-ok :
      (a : Result AdapterError HttpResponse) (id : Text)
      → note_answer deps a ≡ ok id
      → (response : HttpResponse) × (a ≡ ok response)
        × (response.status ≡ 201)
        × (parse_note_id deps response.body ≡ ok id)
  unfolding note_answer
  note_answer-ok (err e) id h = cc
  note_answer-ok (ok response) id h = (response, refl, ground arith, ground arith)

  post_once-ok :
      (property_id : Text) (c : Credentials) (body : Json) (s : World deps) (id : Text)
      → (post_once deps property_id c body s).0 ≡ ok id
      → (r : HttpRequest) × IsNotePost property_id r
        × IsOneMore r s (post_once deps property_id c body s).1
        × IsCreated r s.net id
  unfolding post_once transmit post_request
  post_once-ok property_id c body s id h = elim (Result-cases (note_url deps property_id)) [
    | inr (x, e) ↦ absurd (ground (arith, e))
    | inl (url, e) ↦
        let r = post_request deps url c body in
        let created : note_answer deps (deps.send r s.net).0 ≡ ok id = ground (arith, e) in
        (r, (refl, e), (ground (arith, e), ground (arith, e)), note_answer-ok _ id created)
  ]

  post_once-IsAccepted :
      (property_id : Text) (c : Credentials) (body : Json) (j : ℕ) (w s : World deps) (id : Text)
      → Sent property_id j w s
      → (post_once deps property_id c body s).0 ≡ ok id
      → IsAccepted property_id w (post_once deps property_id c body s).1 id
  post_once-IsAccepted property_id c body j w s id h e =
      let (r, ours, (more, onward), created) = post_once-ok property_id c body s id e in
      record {
        before = h.requests;
        last = r;
        sent =
            more
            ∙ ap (λ (l : List HttpRequest). l ++ (r ∷ [])) h.sent
            ∙ append_assoc w.sent h.requests (r ∷ []);
        post = ours;
        created = subst (λ (net : deps.Net). IsCreated r net id) h.net created;
        net = onward ∙ ap (λ (net : deps.Net). (deps.send r net).1) h.net;
      }

  -- One run with retries: what it sends, and where its success comes from.
  pub post_with_retry-lem :
      (property_id : Text) (c : Credentials) (body : Json) (w : World deps)
      → Sent property_id policy.max_attempts w (post_with_retry deps policy property_id c body w).1
        × ((id : Text)
            → (post_with_retry deps policy property_id c body w).0 ≡ ok id
            → IsAccepted property_id w (post_with_retry deps policy property_id c body w).1 id)
  unfolding post_with_retry sleep
  post_with_retry-lem property_id c body w = elim (dec_lt 0 policy.max_attempts) [
    | no none_left ↦
        let stopped =
          run_with_retry-zero policy (λ attempt. post_once deps property_id c body)
            (sleep deps policy) w (omega arith) in
        (
          subst
              (λ (r : Result AdapterError Text × World deps).
                Sent property_id policy.max_attempts w r.1)
              (sym stopped) (Sent-none property_id policy.max_attempts w),
          λ id e. cc (ap (λ (r : Result AdapterError Text × World deps). r.0) stopped),
        )
    | yes some_left ↦
        let last =
          run_with_retry-LastCall policy (λ attempt. post_once deps property_id c body)
            (sleep deps policy) (λ j s. Sent property_id j w s)
            (λ j d s h.
              Sent-sleep property_id (j + 1) d w _ (post_once-Sent property_id c body j w s h))
            w some_left (Sent-none property_id 0 w) in
        (
          subst
              (λ (r : Result AdapterError Text × World deps).
                Sent property_id policy.max_attempts w r.1)
              last.final
              (Sent-weaken property_id (last.round + 1) policy.max_attempts w _
                (omega (arith, last.round_lt))
                (post_once-Sent property_id c body last.round w last.before last.holds)),
          λ id e.
              subst (λ (r : Result AdapterError Text × World deps). IsAccepted property_id w r.1 id)
                last.final
                (post_once-IsAccepted property_id c body last.round w last.before id last.holds
                  (ap (λ (r : Result AdapterError Text × World deps). r.0) last.final ∙ e)),
        )
  ]
