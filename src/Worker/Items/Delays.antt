-- ===== src/Worker/Items/Delays.antt =====
-- The delay between two attempts, and how many attempts there are.
use Prim.Native.Nat.{◌^◌}
use native.Mathlib.Nat.{pow-le-pow_right}
use moneybee_backend.Base.{
  ℕ, ◌+◌, ◌*◌, ◌/◌, ◌%◌, ◌≤◌, ◌<◌, ◌≡◌, refl, arith, String, true, false, List, [], ◌∷◌, length,
  ltb, leb, if◌then◌else◌, Bool-cases, inl, inr,
}
use moneybee_backend.Worker.Items.{
  ProviderState, WorkerHost, base_delay, provider_retry_delay_seconds, is_null, lease_provider_item,
  provider_failed, maximum,
}

base_delay-bounds : (n : ℕ) → (2 ≤ base_delay n) × (base_delay n ≤ 3600)
unfolding base_delay
base_delay-bounds n =
    let power : 2 ^ 1 ≤ 2 ^ maximum 1 n = pow-le-pow_right (omega arith) {i = 1} (ground arith) in
    ground arith

-- The delay lies between the power of two that is cut at one hour and a quarter more, and is at
-- least two seconds and at most one hour, whatever the digest.
pub provider_retry_delay_seconds-bounds :
    (digest : ℕ → ℕ → ℕ) (item_id attempt_count : ℕ)
    → (2 ≤ provider_retry_delay_seconds digest item_id attempt_count)
      × (provider_retry_delay_seconds digest item_id attempt_count ≤ 3600)
      × (base_delay attempt_count ≤ provider_retry_delay_seconds digest item_id attempt_count)
      × (4 * provider_retry_delay_seconds digest item_id attempt_count
          ≤ 5 * base_delay attempt_count)
unfolding provider_retry_delay_seconds
provider_retry_delay_seconds-bounds digest item_id attempt_count =
    let b = base_delay-bounds attempt_count in
    let jitter : digest item_id attempt_count % (base_delay attempt_count / 4 + 1)
        < base_delay attempt_count / 4 + 1 =
      grind arith in
    (ground arith, ground arith, ground arith, ground arith)

-- an item that fails at each of these times
abbrev pub failures : ℕ → List (WorkerHost × String) → ProviderState → ProviderState
failures item_id [] p = p
failures item_id ((host, error) ∷ rest) p =
    failures item_id rest (provider_failed host item_id error (lease_provider_item host p))

failed_once :
    (host : WorkerHost) (item_id : ℕ) (error : String) (p : ProviderState)
    → ((provider_failed host item_id error (lease_provider_item host p)).attempt_count
        ≡ p.attempt_count + 1)
      × (is_null (provider_failed host item_id error (lease_provider_item host p)).terminal_at
          ≡ (if leb 8 (p.attempt_count + 1) then false else is_null p.terminal_at))
unfolding provider_failed lease_provider_item
failed_once host item_id error p = elim (Bool-cases (leb 8 (p.attempt_count + 1))) [
  | inl last ↦ rw last (refl, refl)
  | inr more ↦ rw more (refl, refl)
]

stays_terminal :
    (item_id : ℕ) (errors : List (WorkerHost × String)) (p : ProviderState)
    → is_null p.terminal_at ≡ false
    → is_null (failures item_id errors p).terminal_at ≡ false
stays_terminal item_id [] p h = h
stays_terminal item_id ((host, error) ∷ rest) p h =
    stays_terminal item_id rest _ (ground (arith, failed_once host item_id error p))

-- An item that is not terminal, has fewer than eight attempts and only meets failures becomes
-- terminal at its eighth attempt, neither earlier nor later.
pub failures-terminal :
    (item_id : ℕ) (errors : List (WorkerHost × String)) (p : ProviderState)
    → is_null p.terminal_at ≡ true
    → p.attempt_count < 8
    → is_null (failures item_id errors p).terminal_at ≡ ltb (p.attempt_count + length errors) 8
failures-terminal item_id [] p h few = ground arith
failures-terminal item_id ((host, error) ∷ rest) p h few =
    let (count, terminal) = failed_once host item_id error p in
    elim (Bool-cases (leb 8 (p.attempt_count + 1))) [
      | inl last ↦
          let over =
            stays_terminal item_id rest
              (provider_failed host item_id error (lease_provider_item host p)) (ground arith) in
          ground arith
      | inr more ↦
          let later =
            failures-terminal item_id rest
              (provider_failed host item_id error (lease_provider_item host p)) (ground arith)
              (ground arith) in
          ground arith
    ]
