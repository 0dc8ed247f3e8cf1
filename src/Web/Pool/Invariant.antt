-- ===== src/Web/Pool/Invariant.antt =====
-- The count of the configuration server's connections in src/wifi.c agrees with the connections
-- that are in use, whatever the order of lwIP's callbacks.
use picow_day_clock.Base.{
  ℕ, zero, suc, ◌+◌, ◌<◌, ◌≤◌, ◌≡◌, refl, ap, ◌∙◌, Bool, true, false, not, List, [], ◌∷◌, none,
  some, arith, length, get_or, set, length-set, All, if◌then◌else◌, ◌⊎◌, inl, inr, Bool-cases,
}
use picow_day_clock.Base.Int.{pos, ◌-ℤ◌, int_laws}
use picow_day_clock.Web.Pool.{Connection, Server, cleared, release, is_free, find_free}

-- 1 for a connection that has a pcb.
abbrev pub is_used : Connection → ℕ
is_used c = if is_free c then 0 else 1

-- How many of the connections are in use.
abbrev pub used : List Connection → ℕ
used [] = 0
used (c ∷ cs) = is_used c + used cs

-- A connection is in use exactly if it points back to the server.
abbrev pub Linked : Connection → Type 0
Linked c = is_free c ≡ not c.has_server

pub record IsConsistent (s : Server) : Type 0 where
  pub size : length s.connections ≡ 4
  pub counted : s.active_connections ≡ pos (used s.connections)
  pub linked : All Linked s.connections

pub All-set :
    (cs : List Connection) (i : ℕ) (c : Connection)
    → All Linked cs
    → Linked c
    → All Linked (set cs i c)
All-set [] i c h k = h
All-set (d ∷ cs) zero c h k = (k, h.1)
All-set (d ∷ cs) (suc i) c h k = (h.0, All-set cs i c h.1 k)

pub Linked-get_or : (cs : List Connection) (i : ℕ) → All Linked cs → Linked (get_or cs i cleared)
Linked-get_or [] i h = refl
Linked-get_or (c ∷ cs) zero h = h.0
Linked-get_or (c ∷ cs) (suc i) h = Linked-get_or cs i h.1

pub used-set :
    (cs : List Connection) (i : ℕ) (c : Connection)
    → i < length cs
    → used (set cs i c) + is_used (get_or cs i cleared) ≡ used cs + is_used c
used-set [] i c h = absurd (omega arith)
used-set (d ∷ cs) zero c h = omega arith
used-set (d ∷ cs) (suc i) c h = omega (arith, used-set cs i c (omega arith))

pub used_bound : (cs : List Connection) → used cs ≤ length cs
used_bound [] = omega arith
used_bound (c ∷ cs) = ground (arith, used_bound cs)

-- A connection past the end is neither read nor written.
pub used-set-past :
    (cs : List Connection) (i : ℕ) (c : Connection) → length cs ≤ i → set cs i c ≡ cs
used-set-past [] i c h = refl
used-set-past (d ∷ cs) zero c h = absurd (omega arith)
used-set-past (d ∷ cs) (suc i) c h = ap (λ x. d ∷ x) (used-set-past cs i c (omega arith))

used-clear :
    (cs : List Connection) (i : ℕ)
    → used (set cs i cleared) + is_used (get_or cs i cleared) ≡ used cs
used-clear [] i = refl
used-clear (d ∷ cs) zero = omega arith
used-clear (d ∷ cs) (suc i) = omega (arith, used-clear cs i)

is_used-Linked : (c : Connection) → Linked c → is_used c ≡ (if c.has_server then 1 else 0)
is_used-Linked c h = rw h (by_server c.has_server)
  where
    by_server : (b : Bool) → ◌≡◌ {A = ℕ} (if not b then 0 else 1) (if b then 1 else 0)
    by_server true = refl
    by_server false = refl

pub release-IsConsistent : (s : Server) (i : ℕ) → IsConsistent s → IsConsistent (release s i)
unfolding release
release-IsConsistent s i h =
    let gone = used-clear s.connections i in
    let c = get_or s.connections i cleared in
    let used_linked = is_used-Linked c (Linked-get_or s.connections i h.linked) in
    let one : c.has_server ≡ true → is_used c ≡ 1 = λ e. ground (arith, used_linked) in
    let zero_used : c.has_server ≡ false → is_used c ≡ 0 = λ e. ground (arith, used_linked) in
    record {
      size = length-set s.connections i cleared ∙ h.size;
      counted = elim (Bool-cases (get_or s.connections i cleared).has_server) [
        | inl linked ↦
            rw linked (ap (λ n. n -ℤ pos 1) h.counted ∙ omega (int_laws, gone, one linked))
        | inr unlinked ↦ rw unlinked (h.counted ∙ ap pos (omega (arith, gone, zero_used unlinked)))
      ];
      linked = All-set s.connections i cleared h.linked refl;
    }

-- The search finds a free connection, unless all are in use.
pub find_free_cases :
    (cs : List Connection) (start : ℕ)
    → ((find_free cs start ≡ none) × (used cs ≡ length cs))
      ⊎ ((k : ℕ) × (find_free cs start ≡ some (start + k))
          × (k < length cs)
          × (is_free (get_or cs k cleared) ≡ true))
unfolding find_free
find_free_cases [] start = inl (refl, refl)
find_free_cases (c ∷ cs) start = elim (Bool-cases (is_free c)) [
  | inl free ↦ inr (0, rw free (ap some (omega arith)), omega arith, free)
  | inr busy ↦ elim (find_free_cases cs (suc start)) [
    | inl all ↦ inl (rw busy all.0, rw busy (omega (arith, all.1)))
    | inr (k, e, fits, free) ↦ inr (suc k, rw busy (e ∙ ap some (omega arith)), omega arith, free)
  ]
]
