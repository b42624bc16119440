-- ===== src/Node/Scripted.antt =====
-- The chain source of the tests gives back what was put in.
use goblin_nip05d.RateLimit.Entries.{get-put_ne, get-put_self}
use goblin_nip05d.Text.{Text}
use goblin_nip05d.Prelude.{false, none, refl, some, true, ℕ, ◌≡◌, ◌≢◌}
use goblin_nip05d.Transfer.{tip}
use goblin_nip05d.Node.{TestChainSource, fail_tip, set_kernel, set_tip, test_kernel, test_source}
use goblin_nip05d.Platform.{Platform}

-- A recorded kernel is found under every spelling of its excess, at its height and depth; a kernel whose
-- excess differs in lower case, and the tip, are answered as before, and the tip is the one that was
-- set, until it is made to fail.
pub test_source-set_kernel :
    (pf : Platform) (t : TestChainSource) (excess again other : Text) (height confirmations tip : ℕ)
    → pf.to_lowercase again ≡ pf.to_lowercase excess
    → pf.to_lowercase excess ≢ pf.to_lowercase other
    → ((test_source pf (set_kernel pf t excess height confirmations)).kernel again
        ≡ some (record { found = true; confirmations = confirmations; height = some height }))
      × ((test_source pf (set_kernel pf t excess height confirmations)).kernel other
          ≡ (test_source pf t).kernel other)
      × ((test_source pf (set_kernel pf t excess height confirmations)).tip_height
          ≡ (test_source pf t).tip_height)
      × ((test_source pf (fail_tip (set_tip t tip) false)).tip_height ≡ some tip)
      × ((test_source pf (fail_tip (set_tip t tip) true)).tip_height ≡ none)
unfolding test_source test_kernel set_kernel set_tip fail_tip
test_source-set_kernel pf t excess again other height confirmations tip same apart = (
  rw (same, get-put_self (pf.to_lowercase excess) (height, confirmations) t.kernels, test_kernel)
      refl,
  rw
      (
        get-put_ne (pf.to_lowercase excess) (pf.to_lowercase other) (height, confirmations)
            t.kernels apart,
        test_kernel,
      )
      refl,
  refl,
  refl,
  refl,
)
