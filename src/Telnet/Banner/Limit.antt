-- ===== src/Telnet/Banner/Limit.antt =====
-- How much `GetTelnetBanner` adds to the banner.
use tls_banner_grab_go.Base.{
  ℕ, zero, suc, ◌+◌, ◌-◌, ◌*◌, ◌%◌, ◌≤◌, ◌<◌, ◌≡◌, refl, true, List, ◌++◌, none, some, Option,
  length, take, ltb, ◌==◌, if◌then◌else◌, arith, length-append, length-take, inl, inr, Bool-cases,
}
use mathlib.Core.Path.{subst}
use tls_banner_grab_go.Net.{
  NetError, eof, timeout, other, ok, err, panic, stuck, Result, NetConn, ReadResult, fill,
}
use tls_banner_grab_go.Telnet.{TelnetLog, read_buffer_length, contains_iac, negotiate_options}
use tls_banner_grab_go.Telnet.Banner.{
  Reading, Step, after_read, continue_reading, again, done, fail, rounds, keep_bytes, banner_round,
  goes_on, read_banner, first_reading, get_telnet_banner, after_negotiation, add_banner,
}

-- The most that the rounds can add: a last round adds the remainder of the division, which is 0
-- where the limit is a multiple of the buffer's length.
abbrev pub most : ℕ → ℕ
most max_read_size = if max_read_size % 8192 == 0 then max_read_size - 8192 else max_read_size

record IsWithin (max_read_size : ℕ) (v : Reading) : Type 0 where
  started : v.count ≤ rounds max_read_size
  before : v.count < rounds max_read_size → length v.banner_slice ≤ v.count * 8192
  after : v.count ≡ rounds max_read_size → length v.banner_slice ≤ most max_read_size
  short : v.num_bytes ≤ 8192

length-take_le : (n : ℕ) (xs : List ℕ) → length (take n xs) ≤ n
length-take_le n xs = omega (arith, length-take n xs)

last_round :
    (c m : ℕ) {old : ℕ} (new : ℕ)
    → c + 1 ≡ rounds m
    → old ≤ c * 8192
    → new ≤ old + m % 8192
    → new ≤ most m
unfolding rounds
last_round c m new e h k = ground arith

keep_bytes-IsWithin :
    (m : ℕ) (v : Reading) → IsWithin m v → v.count < rounds m → IsWithin m (keep_bytes m v)
unfolding keep_bytes
keep_bytes-IsWithin m v h lt = elim (Bool-cases (contains_iac v.buffer)) [
  | inl e ↦ rw (keep_bytes, e) h
  | inr e ↦
      rw (keep_bytes, e)
        (elim (Bool-cases (v.count + 1 == rounds m)) [
          | inl l ↦ rw l (record {
            started = ground arith;
            before = λ p. absurd (ground arith);
            after = λ p. last_round v.count m _ p (h.before lt) (
                omega (
                  arith,
                  length-append v.banner_slice (take (m % 8192) v.buffer),
                  length-take_le (m % 8192) v.buffer,
                ));
            short = h.short;
          })
          | inr l ↦ rw l (record {
            started = ground arith;
            before = λ p. omega (
              arith,
              h.before lt,
              h.short,
              length-append v.banner_slice (take v.num_bytes v.buffer),
              length-take_le v.num_bytes v.buffer,
            );
            after = λ p. absurd (ground arith);
            short = h.short;
          })
        ])
]

-- What the round leaves to the loop, to the end of the loop, or to nobody.
abbrev Leaves : ℕ → Step → Type 0
Leaves m (again v) = IsWithin m v
Leaves m (done v) = IsWithin m v
Leaves m (fail e) = Unit

filled-IsWithin :
    (m : ℕ) (v : Reading) (r : ReadResult)
    → IsWithin m v
    → length r.bytes ≤ 8192
    → IsWithin m (record v { buffer = fill r.bytes v.buffer; num_bytes = length r.bytes })
filled-IsWithin m v r h k = record {
  started = h.started;
  before = h.before;
  after = h.after;
  short = k;
}

after_read-Leaves :
    (m : ℕ) (log : TelnetLog) (v : Reading) (e : Option NetError)
    → IsWithin m v
    → v.count < rounds m
    → Leaves m (after_read m log v e)
unfolding after_read
after_read-Leaves m log v (some timeout) h lt = elim (Bool-cases (length log.banner == 0)) [
  | inl e ↦ rw e tt
  | inr e ↦ rw e h
]
after_read-Leaves m log v (some (other k)) h lt = tt
after_read-Leaves m log v (some eof) h lt = keep_bytes-IsWithin m v h lt
after_read-Leaves m log v none h lt = keep_bytes-IsWithin m v h lt

goes_on-lt : (m : ℕ) (v : Reading) → goes_on m v ≡ true → v.count < rounds m
unfolding goes_on
goes_on-lt m v h = ground arith

ok-injective :
    {S : Type 0} (v w : Reading) {s t : S}
    → ◌≡◌ {A = Result Reading × S} (ok v, s) (ok w, t)
    → v ≡ w
ok-injective v w e = cc

continue_reading-IsWithin :
    {S : Type 0} (m : ℕ) (rest : Reading → S → Result Reading × S) (c : Step) (w : Reading) (s : S)
    {s' : S}
    → Leaves m c
    → ((v : Reading) (t : S) → IsWithin m v → rest v t ≡ (ok w, s') → IsWithin m w)
    → continue_reading rest c s ≡ (ok w, s')
    → IsWithin m w
unfolding continue_reading
continue_reading-IsWithin m rest (again v) w s h k e = k v s h e
continue_reading-IsWithin m rest (done v) w s h k e = subst (IsWithin m) (ok-injective v w e) h
continue_reading-IsWithin m rest (fail x) w s h k e = cc

earlier_round : (c m : ℕ) {n : ℕ} → c < rounds m → n ≤ c * 8192 → n ≤ most m
unfolding rounds
earlier_round c m lt h = ground arith

within-most : (m : ℕ) (v : Reading) → IsWithin m v → length v.banner_slice ≤ most m
within-most m v h = elim (Bool-cases (ltb v.count (rounds m))) [
  | inl e ↦ let lt : v.count < rounds m = ground arith in earlier_round v.count m lt (h.before lt)
  | inr e ↦ h.after (ground (arith, h.started))
]

module _ {S : Type 0} (conn : NetConn S) where
  read_banner-IsWithin :
      (fuel m : ℕ) (log : TelnetLog) (v w : Reading) (s : S) {s' : S}
      → IsWithin m v
      → read_banner conn fuel m log v s ≡ (ok w, s')
      → IsWithin m w
  unfolding read_banner banner_round
  read_banner-IsWithin zero m log v w s h e = cc
  read_banner-IsWithin (suc fuel) m log v w s h e = elim (Bool-cases (goes_on m v)) [
    | inl g ↦
        let (r, s₁) = conn.read read_buffer_length s in
        continue_reading-IsWithin m (read_banner conn fuel m log) (banner_round m log v r) w s₁
          (after_read-Leaves m log _ r.error (filled-IsWithin m v r h (conn.read-le 8192 s))
            (goes_on-lt m v g))
          (λ u t hu eu. read_banner-IsWithin fuel m log u w t hu eu) (rw (g, read_banner) at e)
    | inr g ↦ subst (IsWithin m) (ok-injective v w (rw (g, read_banner) at e)) h
  ]

  first-IsWithin : (m : ℕ) → IsWithin m first_reading
  first-IsWithin m = record {
    started = omega arith;
    before = λ p. omega arith;
    after = λ p. omega arith;
    short = omega arith;
  }

  add_banner-le-most :
      (m : ℕ) (log log' : TelnetLog) (c : Result Reading × S) {s' : S}
      → ((v : Reading) (t : S) → c ≡ (ok v, t) → IsWithin m v)
      → add_banner conn log c ≡ (ok tt, log', s')
      → length log'.banner ≤ length log.banner + most m
  unfolding add_banner
  add_banner-le-most m log log' (ok v, s) h e =
      let same : log.banner ++ v.banner_slice ≡ log'.banner = cc e in
      rw (← same)
        (omega (arith, length-append log.banner v.banner_slice, within-most m v (h v s refl)))
  add_banner-le-most m log log' (err x, s) h e = cc
  add_banner-le-most m log log' (panic, s) h e = cc
  add_banner-le-most m log log' (stuck, s) h e = cc

  after_negotiation-le-most :
      (fuel m : ℕ) (c : Result (Unit {0}) × TelnetLog × S) (log' : TelnetLog) (s' : S)
      → after_negotiation conn fuel m c ≡ (ok tt, log', s')
      → (found : TelnetLog) × (t : S) × (c ≡ (ok tt, found, t))
        × (length log'.banner ≤ length found.banner + most m)
  unfolding after_negotiation
  after_negotiation-le-most fuel m (ok u, log, s) log' s' e = (
    log,
    s,
    refl,
    add_banner-le-most m log log' (read_banner conn fuel m log first_reading s)
        (λ v t r. read_banner-IsWithin fuel m log first_reading v s (first-IsWithin m) r) e,
  )
  after_negotiation-le-most fuel m (err x, log, s) log' s' e = cc
  after_negotiation-le-most fuel m (panic, log, s) log' s' e = cc
  after_negotiation-le-most fuel m (stuck, log, s) log' s' e = cc

  -- Where GetTelnetBanner succeeds, the negotiation did, and the rounds add at most the limit to
  -- the banner that it found, and at most the limit less 8192 where the limit is a multiple of
  -- 8192.
  pub get_telnet_banner-le-most :
      (fuel m : ℕ) (log log' : TelnetLog) (s s' : S)
      → get_telnet_banner conn fuel m log s ≡ (ok tt, log', s')
      → (found : TelnetLog) × (t : S) × (negotiate_options conn fuel log s ≡ (ok tt, found, t))
        × (length log'.banner ≤ length found.banner + most m)
  unfolding get_telnet_banner
  get_telnet_banner-le-most fuel m log log' s s' e =
      after_negotiation-le-most fuel m (negotiate_options conn fuel log s) log' s' e
