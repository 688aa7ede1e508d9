-- ===== src/Ezsp/Network/Start.antt =====
-- internal/ezsp/network.go: the random PAN ID and the wait for the network.
use gzb.Base.{
  ℕ, zero, suc, ◌+◌, ◌<◌, ◌≡◌, ◌≢◌, refl, ap, subst, arith, not, ◌&&◌, Option, none, some, List, [],
  ◌∷◌, ◌++◌, ◌==◌, ==_iff, All, word16, Bool-cases, inl, inr, ◌⊎◌,
}
use gzb.Base.Result.{Result, ok, err}
use gzb.Cursor.{new_buf, u8}
use gzb.Ezsp.Protocol.{Message}
use gzb.Ezsp.Talk.{Failure, whole}
use gzb.Ezsp.Network.{
  taken, draw_pan_id, random_pan_id, UpWake, status_message, closed, decided, await_network_up,
}

-- A value that a draw gave.
abbrev pub Drawn : (ℕ → Option (ℕ × ℕ)) → ℕ → ℕ → Type 0
Drawn draws i id = (a : ℕ) × (b : ℕ) × (draws i ≡ some (a, b)) × (id ≡ word16 a b)

-- A draw of one of the reserved values.
abbrev pub IsReserved : Option (ℕ × ℕ) → Type 0
IsReserved none = ⊥
IsReserved (some (a, b)) = (word16 a b ≡ 0) ⊎ (word16 a b ≡ 0xFFFF)

abbrev Usable : ℕ → Type 0
Usable id = (id ≢ 0) × (id ≢ 0xFFFF)

taken-ok :
    (o : Option (ℕ × ℕ)) (rest : Result Failure ℕ) (id : ℕ)
    → taken o rest ≡ ok id
    → (IsReserved o × (rest ≡ ok id))
      ⊎ (Usable id × ((a : ℕ) × (b : ℕ) × (o ≡ some (a, b)) × (id ≡ word16 a b)))
taken-ok none rest id e = cc
taken-ok (some (a, b)) rest id e =
    elim (Bool-cases (not (word16 a b == 0x0000) && not (word16 a b == 0xFFFF))) [
      | inl good ↦ inr ((ground arith, ground arith), (a, b, refl, ground arith))
      | inr bad ↦ inl (ground arith, ground arith)
    ]

draw_pan_id-ok :
    (left i : ℕ) (draws : ℕ → Option (ℕ × ℕ)) (id : ℕ)
    → draw_pan_id left i draws ≡ ok id
    → Usable id
      × ((j : ℕ) × (j < left)
          × Drawn draws (i + j) id
          × ((m : ℕ) → m < j → IsReserved (draws (i + m))))
unfolding draw_pan_id
draw_pan_id-ok zero i draws id e = cc
draw_pan_id-ok (suc left) i draws id e = elim (taken-ok (draws i) _ id e) [
  | inr (u, d) ↦ (
    u,
    (0, omega arith, subst (λ t. Drawn draws t id) (omega arith) d, λ m lt. absurd (omega arith)),
  )
  | inl (reserved, later) ↦
      let (u, (j, lt, d, all)) = draw_pan_id-ok left (suc i) draws id later in
      (
        u,
        (
          suc j,
          omega arith,
          subst (λ t. Drawn draws t id) (omega arith) d,
          first_or_later i draws reserved all,
        ),
      )
]
  where
    first_or_later :
        {j : ℕ} (i : ℕ) (draws : ℕ → Option (ℕ × ℕ))
        → IsReserved (draws i)
        → ((m : ℕ) → m < j → IsReserved (draws (suc i + m)))
        → (m : ℕ) → m < suc j
        → IsReserved (draws (i + m))
    first_or_later i draws r all zero lt = subst (λ t. IsReserved (draws t)) (omega arith) r
    first_or_later i draws r all (suc m) lt =
        subst (λ t. IsReserved (draws t)) (omega arith) (all m (omega arith))

-- `randomPanID` gives a value that is neither 0x0000 nor 0xFFFF, that of the first of its eight draws
-- that is neither of them.
pub random_pan_id-ok :
    (draws : ℕ → Option (ℕ × ℕ)) (id : ℕ)
    → random_pan_id draws ≡ ok id
    → (id ≢ 0)
      × (id ≢ 0xFFFF)
      × ((j : ℕ) × (j < 8) × Drawn draws j id × ((m : ℕ) → m < j → IsReserved (draws m)))
unfolding random_pan_id
random_pan_id-ok draws id e =
    let (u, (j, lt, d, all)) = draw_pan_id-ok 8 0 draws id e in
    (
      u.0,
      u.1,
      (
        j,
        lt,
        subst (λ t. Drawn draws t id) (omega arith) d,
        λ m h. subst (λ t. IsReserved (draws t)) (omega arith) (all m h),
      ),
    )

-- A status that the wait for the network goes on after: one that cannot be read, or "success".
abbrev pub IsPassedStatus : Result Failure ℕ → Type 0
IsPassedStatus (err e) = Unit {0}
IsPassedStatus (ok status) = status ≡ 0

abbrev pub IsPassed : UpWake → Type 0
IsPassed closed = ⊥
IsPassed (status_message m) = IsPassedStatus (whole (u8 (new_buf m.params)))

decided-ok :
    (r : Result Failure ℕ) (rest : Result Failure (Unit {0}))
    → decided r rest ≡ ok tt
    → (r ≡ ok 0x90) ⊎ (IsPassedStatus r × (rest ≡ ok tt))
decided-ok (err e) rest h = inr (tt, h)
decided-ok (ok status) rest h = elim (Bool-cases (status == 0x90)) [
  | inl up ↦ inl (ap ok ((==_iff status 0x90).0 up))
  | inr other ↦ inr (ground arith, ground arith)
]

abbrev pub ReportsUp : List UpWake → Type 0
ReportsUp ws =
    (before : List UpWake) × (m : Message) × (later : List UpWake) × (ws
      ≡ before ++ status_message m ∷ later)
    × All IsPassed before
    × (whole (u8 (new_buf m.params)) ≡ ok 0x90)

-- `awaitNetworkUp` succeeds only if a stack status of 0x90, network up, came in before the deadline,
-- and in front of it nothing but "success" and messages too short to hold a status.
pub await_network_up-ReportsUp : (ws : List UpWake) → await_network_up ws ≡ ok tt → ReportsUp ws
unfolding await_network_up
await_network_up-ReportsUp [] e = cc
await_network_up-ReportsUp (closed ∷ ws) e = cc
await_network_up-ReportsUp (status_message m ∷ ws) e =
    elim (decided-ok (whole (u8 (new_buf m.params))) (await_network_up ws) e) [
      | inl up ↦ ([], m, ws, refl, tt, up)
      | inr (passed, rest) ↦ skip m ws passed (await_network_up-ReportsUp ws rest)
    ]
  where
    skip :
        (m : Message) (ws : List UpWake)
        → IsPassed (status_message m)
        → ReportsUp ws
        → ReportsUp (status_message m ∷ ws)
    skip m ws p (before, m', later, q, all, is) =
        (status_message m ∷ before, m', later, ap (◌∷◌ (status_message m)) q, (p, all), is)
