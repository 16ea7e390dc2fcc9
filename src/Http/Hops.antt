-- ===== src/Http/Hops.antt =====
-- Invariants of the client's loop: what holds of the hops, from redirect to redirect, and at the end.
use tls_banner_grab_go.Base.{
  ℕ, zero, suc, ◌+◌, ◌≤◌, ◌≡◌, refl, inl, inr, Bool, true, false, List, [], ◌∷◌, ◌++◌, Option, none,
  some, length, ltb, if◌then◌else◌, arith, Bool-cases,
}
use tls_banner_grab_go.Base.Int.{ℤ, pos, negsuc, pos_part, ltb_ℤ}
use tls_banner_grab_go.Net.{Error, Result, ok}
use tls_banner_grab_go.Config.{Config}
use tls_banner_grab_go.Http.{Response}
use tls_banner_grab_go.Http.Grab.{
  redirect_limit, Client, Url, Turn, answered, failed, redirected, Refusal, redir_localhost,
  too_many, Hops, Done, response, refused, no_response, max_read_len, read_len, hash_of,
  keep_response, is_refused, with_tls, check_redirect, checked, limited, after_check, follow,
}

-- A text is not longer than a length that is given.
abbrev pub Within : Option ℕ → List ℕ → Type 0
Within none text = Unit
Within (some n) text = length text ≤ n

within-le :
    (most : ℤ) (n k : ℕ)
    → k ≤ pos_part (if ltb_ℤ (pos n) most then pos n else most)
    → (k ≤ pos_part most) × (k ≤ n)
within-le (pos m) n k h = elim (Bool-cases (ltb (n + 0) (m + 0))) [
  | inl e ↦ let h' : k ≤ n = rw e at h in ground arith
  | inr e ↦ let h' : k ≤ m = rw e at h in ground arith
]
within-le (negsuc m) n k h =
    let e : ltb (n + suc m) (0 + 0) ≡ false = ground arith in
    let h' : k ≤ 0 = rw e at h in omega arith

read_len-le :
    (config : Config) (o : Option ℕ) (text : List ℕ)
    → length text ≤ pos_part (read_len config o)
    → (length text ≤ pos_part (max_read_len config)) × Within o text
unfolding read_len
read_len-le config none text h = (h, tt)
read_len-le config (some n) text h = within-le (max_read_len config) n (length text) h

module _ {S : Type 0} (client : Client S) (config : Config) where
  -- The body of a response is bounded by the option and by the length that it announces, and has
  -- its hash.
  pub record IsRecorded (res : Response) : Type 0 where
    pub bounded : length res.body_text ≤ pos_part (max_read_len config)
    pub announced : Within res.content_length res.body_text
    pub hashed : res.body_sha256 ≡ hash_of client config res.body_text

  pub keep_response-IsRecorded :
      (res : Response) (s : S) → IsRecorded (keep_response client config res s).0
  unfolding keep_response
  keep_response-IsRecorded res s =
      let text = (client.read_body (pos_part (read_len config res.content_length)) s).0 in
      let (b, a) =
        read_len-le config res.content_length text
          (client.read_body-le (pos_part (read_len config res.content_length)) s) in
      record { bounded = b; announced = a; hashed = refl }

  -- The ways that `CheckRedirect` goes.
  pub data Checks (url : Url) (via : ℕ) (hops : Hops)
      : Option Refusal × Response × Hops × S → Type 0 where
    local :
        (res : Response) (s s' : S)
        → is_refused client config url s ≡ (true, s')
        → Checks url via hops (some redir_localhost, res, hops, s')
    over :
        (res : Response) (s' : S)
        → IsRecorded res
        → ltb_ℤ config.http.max_redirects (pos via) ≡ true
        → Checks url via hops
            (some too_many, res, record hops { chain = hops.chain ++ (res ∷ []) }, s')
    on :
        (res : Response) (s s₁ s' : S)
        → is_refused client config url s ≡ (false, s₁)
        → IsRecorded res
        → via ≤ redirect_limit config
        → Checks url via hops (
          none,
          res,
          record { tls = with_tls client config url hops.tls; chain = hops.chain ++ (res ∷ []) },
          s',
        )

  limited-Checks :
      (url : Url) (res : Response) (via : ℕ) (hops : Hops) (s s₁ s' : S)
      → is_refused client config url s ≡ (false, s₁)
      → IsRecorded res
      → Checks url via hops (limited client config url res via hops s')
  limited-Checks url res via hops s s₁ s' e h =
      elim (Bool-cases (ltb_ℤ config.http.max_redirects (pos via))) [
        | inl b ↦ rw b (over res s' h b)
        | inr b ↦ rw b (on res s s₁ s' e h (ground arith))
      ]

  checked-Checks :
      (url : Url) (res : Response) (via : ℕ) (hops : Hops) (s : S) (c : Bool × S)
      → is_refused client config url s ≡ c
      → Checks url via hops (checked client config url res via hops c)
  checked-Checks url res via hops s (true, s') e = local res s s' e
  checked-Checks url res via hops s (false, s') e =
      limited-Checks url (keep_response client config res s').0 via hops s s'
        (keep_response client config res s').1 e (keep_response-IsRecorded res s')

  pub check_redirect-Checks :
      (url : Url) (res : Response) (via : ℕ) (hops : Hops) (s : S)
      → Checks url via hops (check_redirect client config url res via hops s)
  unfolding check_redirect
  check_redirect-Checks url res via hops s =
      checked-Checks url res via hops s (is_refused client config url s) refl

  -- What is shown of a loop: `Inv` of `len(via)` and the hops before each turn, and `Post` of the end.
  pub record IsInvariant (Inv : ℕ → Hops → Type 0) (Post : Result Done × Hops × S → Type 0)
      : Type 0 where
    pub below : (via : ℕ) (hops : Hops) → Inv via hops → via ≤ suc (redirect_limit config)
    pub ends :
        (via : ℕ) (hops : Hops) (s : S)
        → Inv via hops
        → ((res : Response) → Post (ok (response res), hops, s))
          × ((e : Error) → Post (ok (no_response e), hops, s))
    pub stops :
        (url : Url) (via : ℕ) (hops hops' : Hops) (r : Refusal) (res : Response) (s s' : S)
        → Inv via hops
        → Checks url via hops (some r, res, hops', s)
        → Post (ok (refused res r), hops', s')
    pub goes_on :
        (url : Url) (via : ℕ) (hops hops' : Hops) (res : Response) (s : S)
        → Inv via hops
        → Checks url via hops (none, res, hops', s)
        → Inv (suc via) hops'

  module _ {Inv : ℕ → Hops → Type 0} {Post : Result Done × Hops × S → Type 0}
      (inv : IsInvariant Inv Post) where
    after_check-Post :
        (url : Url) (via : ℕ) (hops : Hops) (next : Hops → S → Result Done × Hops × S)
        (c : Option Refusal × Response × Hops × S)
        → Inv via hops
        → Checks url via hops c
        → ((hops' : Hops) (s' : S) → Inv (suc via) hops' → Post (next hops' s'))
        → Post (after_check client config next c)
    unfolding after_check
    after_check-Post url via hops next (none, res, hops', s) i h k =
        k hops' s (inv.goes_on url via hops hops' res s i h)
    after_check-Post url via hops next (some r, res, hops', s) i h k =
        inv.stops url via hops hops' r res s (client.close_body s) i h

    -- With fuel for the redirects that are left, the loop ends with what is to be shown.
    pub follow-Post :
        (fuel via : ℕ) (hops : Hops) (c : Turn × S)
        → suc (suc (redirect_limit config)) ≤ fuel + via
        → Inv via hops
        → Post (follow client config fuel via hops c)
    unfolding follow
    follow-Post fuel via hops (answered res, s) f i = (inv.ends via hops s i).0 res
    follow-Post fuel via hops (failed e, s) f i = (inv.ends via hops s i).1 e
    follow-Post zero via hops (redirected url res, s) f i =
        absurd (omega (arith, inv.below via hops i))
    follow-Post (suc fuel) via hops (redirected url res, s) f i =
        after_check-Post url via hops
          (λ hops' s'. follow client config fuel (suc via) hops' (client.proceed hops'.tls url s'))
          (check_redirect client config url res via hops s) i
          (check_redirect-Checks url res via hops s)
          (λ hops' s' i'.
            follow-Post fuel (suc via) hops' (client.proceed hops'.tls url s') (omega arith) i')
