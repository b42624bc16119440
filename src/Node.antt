-- ===== src/Node.antt =====
-- src/node.rs: the client of the Grin nodes, with its failover, and the chain source for tests. HTTP is a
-- parameter; the text of an error is only logged, so `Option` stands for a result.
pub mod Failover
pub mod Depth
pub mod Scripted
use goblin_nip05d.Prelude.Int.{u64_mod}
use goblin_nip05d.App.Moment.{ChainSource, KernelResult}
use goblin_nip05d.Text.{Text, lit}
use goblin_nip05d.Prelude.{
  ◌>>=◌, Bool, List, Option, [], false, if◌then◌else◌, none, not, some, true, ℕ, ◌%◌, ◌+◌, ◌-◌,
  ◌==◌, ◌∷◌,
}
use goblin_nip05d.Config.{Config, grin_node_endpoints}
use goblin_nip05d.Platform.{Json, Platform, Shape, null, number}
use goblin_nip05d.RateLimit.{get_entry, put_entry}

-- One JSON-RPC call: the method with its parameters.
pub data Rpc : Type 0 where
  get_kernel : Text → Rpc
  get_tip : Rpc

-- The first endpoint that answers; the others are not asked.
unfoldable pub first_answer : {A : Type 0} → (Text → Option A) → List Text → Option A
first_answer ask [] = none
first_answer ask (e ∷ es) =
    let rest = first_answer ask es in elim (ask e) [ none ↦ rest | some a ↦ some a ]

-- `(tip_h.saturating_sub(h) + 1).max(1)`, in u64.
unfoldable pub depth : ℕ → ℕ → ℕ
depth tip h = let n = (tip - h + 1) % u64_mod in if n == 0 then 1 else n

unfoldable pub not_found : KernelResult
not_found = record { found = false; confirmations = 0; height = none }

-- The last `match` of `kernel_one`.
unfoldable pub found_at : Option ℕ → Option ℕ → KernelResult
unfolding depth
found_at (some h) (some tip) = record { found = true; confirmations = depth tip h; height = some h }
found_at height _ = record { found = true; confirmations = 1; height = height }

module _ (js : Json) where
  open js use {Value, shape, get, get_index, null_value}

  -- A response: whether its status is a success, and its body as JSON.
  pub record Reply : Type 0 where
    pub success : Bool
    pub json : Option Value

  unfoldable pub is_null : Value → Bool
  is_null v = elim (shape v) [ Shape.null ↦ true | _ ↦ false ]

  -- `v.as_u64()`
  unfoldable pub value_u64 : Value → Option ℕ
  value_u64 v = elim (shape v) [ Shape.number n ↦ js.as_u64 n | _ ↦ none ]

  -- A member as u64.
  unfoldable pub member_u64 : Value → Text → Option ℕ
  unfolding value_u64
  member_u64 v key = elim (get v key) [ none ↦ none | some x ↦ value_u64 x ]

  unfoldable pub has_error : Value → Bool
  unfolding is_null
  has_error value = elim (get value (lit "error")) [ none ↦ false | some e ↦ not (is_null e) ]

  -- The `{ Ok | Err }` envelope.
  unfoldable pub unwrap_envelope : Value → Option Value
  unwrap_envelope result = elim (get result (lit "Err")) [
    | some e ↦ none
    | none ↦ some (elim (get result (lit "Ok")) [ none ↦ result | some v ↦ v ])
  ]

  unfoldable pub read_reply : Reply → Option Value
  unfolding has_error unwrap_envelope
  read_reply resp =
      if resp.success
      then elim resp.json [
        | none ↦ none
        | some value ↦
            if has_error value
            then none
            else unwrap_envelope
                (elim (get value (lit "result")) [ none ↦ null_value | some r ↦ r ])
      ]
      else none

  -- The height in a kernel's reply: the second entry of the array, or else the member.
  unfoldable pub kernel_height : Value → Option ℕ
  unfolding value_u64 member_u64
  kernel_height kernel = elim (get_index kernel 1 >>= value_u64) [
    | some h ↦ some h
    | none ↦ member_u64 kernel (lit "height")
  ]

  -- `post` is `self.http.post(endpoint).json(&body).send()`; `none` is a transport error.
  module _ (post : Text → Rpc → Option Reply) where
    unfoldable pub rpc : Text → Rpc → Option Value
    rpc endpoint call = post endpoint call >>= read_reply

    unfoldable pub kernel_one : Text → Text → Option KernelResult
    kernel_one excess endpoint = do
      kernel ← rpc endpoint (get_kernel excess)
      if is_null kernel
          then some not_found
          else (rpc endpoint get_tip >>= λ tip.
              some (found_at (kernel_height kernel) (member_u64 tip (lit "height"))))

    -- One round of `tip_height`.
    unfoldable pub tip_one : Text → Option ℕ
    tip_one endpoint = rpc endpoint get_tip >>= λ tip. member_u64 tip (lit "height")

    unfoldable pub node_client : List Text → ChainSource
    unfolding first_answer
    node_client endpoints = record {
      kernel = λ excess. first_answer (kernel_one excess) endpoints;
      tip_height = first_answer tip_one endpoints;
    }

    -- The chain source of `App::open`.
    unfoldable pub node_of : Config → Option ChainSource
    node_of cfg = if cfg.allow_transfers then some (node_client (grin_node_endpoints cfg)) else none

-- The chain source for tests: a settable tip, and a map of kernels to height and confirmations.
pub record TestChainSource : Type 0 where
  pub tip : ℕ
  pub kernels : List (Text × (ℕ × ℕ))
  pub tip_fails : Bool

-- `TestChainSource::new`, `set_tip` and `fail_tip`.
unfoldable pub test_new : ℕ → TestChainSource
test_new tip = record { tip = tip; kernels = []; tip_fails = false }

unfoldable pub set_tip : TestChainSource → ℕ → TestChainSource
set_tip t tip = record t { tip = tip }

unfoldable pub fail_tip : TestChainSource → Bool → TestChainSource
fail_tip t fail = record t { tip_fails = fail }

module _ (pf : Platform) where
  unfoldable pub set_kernel : TestChainSource → Text → ℕ → ℕ → TestChainSource
  set_kernel t excess height confirmations = record t {
    kernels = put_entry (pf.to_lowercase excess) (height, confirmations) t.kernels;
  }

  unfoldable pub test_kernel : TestChainSource → Text → KernelResult
  unfolding not_found
  test_kernel t excess = elim (get_entry (pf.to_lowercase excess) t.kernels) [
    | none ↦ not_found
    | some (h, n) ↦ record { found = true; confirmations = n; height = some h }
  ]

  unfoldable pub test_source : TestChainSource → ChainSource
  unfolding test_kernel
  test_source t = record {
    kernel = λ excess. some (test_kernel t excess);
    tip_height = if t.tip_fails then none else some t.tip;
  }
