-- ===== src/Compat/Evaluation/Contract.antt =====
-- When compat.go lets an operation run.
use wii_bridge.Common.{
  ℕ, ◌≤◌, ◌≡◌, ◌≢◌, refl, sym, ap, subst, ◌∙◌, String, Bool, true, false, none, some, List, [], ◌∷◌,
  arith, ltb, max, min, Bool-cases, Option-cases, inl, inr,
}
use wii_bridge.Compat.{Descriptor, Go, contains, validate, State, blocked, Problem, Result}
use wii_bridge.Compat.Evaluation.{
  EvaluateOptions, block, check, differs, is_refused, check_identity, negotiate, lacking, is_empty,
  check_required, with_warnings, check_optional, all_required, start, assess, evaluate,
}

-- Every item of the first list is in the second.
abbrev pub AllIn : List String → List String → Type 0
AllIn [] available = Unit
AllIn (c ∷ cs) available = (contains available c ≡ true) × AllIn cs available

-- What has to hold for an operation.
pub record Fit (go : Go) (host firmware : Descriptor) (options : EvaluateOptions) (r : Result)
    : Type 0 where
  pub host_valid : validate go host "host" ≡ none
  pub firmware_valid : validate go firmware "firmware" ≡ none
  pub board : differs options.expected_board firmware.board ≡ false
  pub supported : is_refused options.board_supported ≡ false
  pub device : differs options.expected_device_id firmware.device_id ≡ false
  pub protocol : ℕ
  pub negotiated : r.negotiated_protocol ≡ some protocol
  pub host_speaks : (host.protocol_min ≤ protocol) × (protocol ≤ host.protocol_max)
  pub firmware_speaks : (firmware.protocol_min ≤ protocol) × (protocol ≤ firmware.protocol_max)
  pub best : (q : ℕ) → q ≤ host.protocol_max → q ≤ firmware.protocol_max → q ≤ protocol
  pub capable : AllIn (all_required options) firmware.capabilities

lacking-AllIn :
    (cs available : List String) → is_empty (lacking cs available) ≡ true → AllIn cs available
lacking-AllIn [] available h = tt
lacking-AllIn (c ∷ cs) available h = elim (Bool-cases (contains available c)) [
  | inl here ↦ (here, lacking-AllIn cs available (ground arith))
  | inr missing ↦ absurd (ground arith)
]

check-status :
    (b : Bool) (p : Problem) (r : Result)
    → (check b p r).status ≢ blocked
    → (b ≡ false) × (r.status ≢ blocked) × (check b p r ≡ r)
unfolding check block
check-status true p r h = absurd (h refl)
check-status false p r h = (refl, h, refl)

negotiate-status :
    (host firmware : Descriptor) (r : Result)
    → (negotiate host firmware r).status ≢ blocked
    → (r.status ≢ blocked)
      × (ltb
            (min host.protocol_max firmware.protocol_max)
            (max host.protocol_min firmware.protocol_min)
          ≡ false)
      × ((negotiate host firmware r).negotiated_protocol
          ≡ some (min host.protocol_max firmware.protocol_max))
unfolding negotiate block
negotiate-status host firmware r h =
    elim (Bool-cases (
      ltb (min host.protocol_max firmware.protocol_max)
        (max host.protocol_min firmware.protocol_min))) [
          | inl apart ↦ absurd (h (rw apart))
          | inr overlap ↦ (λ e. h (rw overlap e), overlap, rw overlap)
        ]

check_identity-status :
    (firmware : Descriptor) (options : EvaluateOptions) (r : Result)
    → (check_identity firmware options r).status ≢ blocked
    → (differs options.expected_board firmware.board ≡ false)
      × (is_refused options.board_supported ≡ false)
      × (differs options.expected_device_id firmware.device_id ≡ false)
unfolding check_identity
check_identity-status firmware options r h =
    let (device, h1, e1) = check-status _ _ _ h in
    let (supported, h2, e2) = check-status _ _ _ h1 in
    let (board, h3, e3) = check-status _ _ _ h2 in (board, supported, device)

with_warnings-blocked : (s : State) (ws : List Problem) → s ≡ blocked → with_warnings s ws ≡ blocked
with_warnings-blocked s ws e = rw e

check_required-status :
    (go : Go) (required : List String) (firmware : Descriptor) (r : Result)
    → (check_required go required firmware r).status ≢ blocked
    → (r.status ≢ blocked)
      × (is_empty (go.sort_strings (lacking required firmware.capabilities)) ≡ true)
      × ((check_required go required firmware r).negotiated_protocol ≡ r.negotiated_protocol)
unfolding check_required
check_required-status go required firmware r h =
    let (missing, h', e) = check-status _ _ _ h in
    (h', ground arith, ap (λ x. x.negotiated_protocol) e)

assess_lem :
    (go : Go) (host firmware : Descriptor) (options : EvaluateOptions) (r : Result)
    → ((xs : List String) → is_empty (go.sort_strings xs) ≡ is_empty xs)
    → validate go host "host" ≡ none
    → validate go firmware "firmware" ≡ none
    → (assess go host firmware options r).status ≢ blocked
    → Fit go host firmware options (assess go host firmware options r)
unfolding assess check_optional
assess_lem go host firmware options r sorts good good' h =
    let identified = check_identity firmware options r in
    let spoken = negotiate host firmware identified in
    let required = check_required go (all_required options) firmware spoken in
    let (h1, none_missing, same) =
      check_required-status go (all_required options) firmware spoken
        (λ e. h (with_warnings-blocked required.status _ e)) in
    let (h2, overlap, agreed) = negotiate-status host firmware identified h1 in
    let (board, supported, device) = check_identity-status firmware options r h2 in
    record {
      host_valid = good;
      firmware_valid = good';
      board = board;
      supported = supported;
      device = device;
      protocol = min host.protocol_max firmware.protocol_max;
      negotiated = same ∙ agreed;
      host_speaks = (ground arith, ground arith);
      firmware_speaks = (ground arith, ground arith);
      best = λ q lo hi. ground arith;
      capable =
          lacking-AllIn (all_required options) firmware.capabilities (sym (sorts _) ∙ none_missing);
    }

-- With a sort.Strings that empties no list: an operation whose evaluation is not blocked has two
-- valid descriptors, the expected board and device, a protocol that is the highest of those that
-- both sides speak, and every capability that the operation requires.
pub evaluate_lem :
    (go : Go) (host firmware : Descriptor) (options : EvaluateOptions)
    → ((xs : List String) → is_empty (go.sort_strings xs) ≡ is_empty xs)
    → (evaluate go host firmware options).status ≢ blocked
    → Fit go host firmware options (evaluate go host firmware options)
evaluate_lem go host firmware options sorts h = elim (Option-cases (validate go host "host")) [
  | inr (e, bad) ↦ absurd (h (unfold evaluate block in rw (bad, evaluate)))
  | inl good ↦ elim (Option-cases (validate go firmware "firmware")) [
    | inr (e, bad) ↦ absurd (h (unfold evaluate block in rw (good, bad, evaluate)))
    | inl good' ↦
        let same : evaluate go host firmware options
            ≡ assess go host firmware options (start go options) =
          unfold evaluate in rw (good, good', evaluate) in
        subst (Fit go host firmware options) (sym same) (
          assess_lem go host firmware options (start go options) sorts good good'
            (λ e. h (ap (λ x. x.status) same ∙ e)))
  ]
]
