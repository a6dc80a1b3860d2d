-- ===== src/SendHealth/Served.antt =====
-- The verdict for the whole faucet.
use zcash_faucet.Base.{
  ℕ, ◌≡◌, refl, ◌⊎◌, inl, inr, true, false, none, some, List, [], ◌∷◌, arith, any, Bool-cases,
}
use zcash_faucet.Network.{Network}
use zcash_faucet.SendHealth.{
  SendRecord, is_degraded, first_bad, read_send_health, read_send_health_served,
  send_health_blocks_serving,
}

first_bad-cases :
    (window now : ℕ) (records : List SendRecord) (ns : List Network)
    → ((first_bad window now records ns ≡ none)
        × (any (λ n. is_degraded (read_send_health window now records n)) ns ≡ false))
      ⊎ ((n : Network) × (first_bad window now records ns ≡ some n)
          × (is_degraded (read_send_health window now records n) ≡ true)
          × (any (λ n. is_degraded (read_send_health window now records n)) ns ≡ true))
unfolding first_bad
first_bad-cases window now records [] = inl (refl, refl)
first_bad-cases window now records (n ∷ ns) =
    elim (Bool-cases (is_degraded (read_send_health window now records n))) [
      | inl bad ↦ inr (n, rw bad, bad, rw bad)
      | inr fine ↦ rw fine (first_bad-cases window now records ns)
    ]

-- The faucet is kept from serving by the served verdict exactly when the verdict of some served
-- network is degraded, the network's own sends alone being asked.
pub served-blocks_iff :
    (window now : ℕ) (records : List SendRecord) (n : Network) (ns : List Network)
    → send_health_blocks_serving (read_send_health_served window now records n ns)
      ≡ any (λ m. send_health_blocks_serving (read_send_health window now records m)) (n ∷ ns)
unfolding read_send_health_served send_health_blocks_serving
served-blocks_iff window now records n ns =
    ground (arith, first_bad-cases window now records (n ∷ ns))
