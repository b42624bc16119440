-- ===== src/Node/Depth.antt =====
-- What the confirmations of a kernel say.
use goblin_nip05d.Node.Failover.{node_client-First, First}
use goblin_nip05d.App.Moment.{KernelResult}
use goblin_nip05d.Transfer.Claim.{confirmed}
use goblin_nip05d.Text.{Text, lit}
use goblin_nip05d.Prelude.{
  ◌>>=◌, Option, arith, leb→le, none, refl, some, true, ℕ, ◌+◌, ◌≡◌, ◌≤◌, >>=-eq-some, Bool-cases,
  List, ap, false, inl, inr, sym, ◌∙◌, ◌++◌, ◌∷◌,
}
use goblin_nip05d.Node.{
  Reply, Rpc, depth, found_at, get_kernel, get_tip, kernel_height, member_u64, rpc, is_null,
  kernel_one, node_client, not_found,
}
use goblin_nip05d.Platform.{Json}

module _ (js : Json) (post : Text → Rpc → Option (Reply js)) where
  -- One endpoint of the list reports the kernel at a height, and a tip that is `min_conf` blocks deep over it.
  pub record Buried (es : List Text) (min_conf : ℕ) (excess : Text) (k : KernelResult)
      : Type 1 where
    pub endpoint : Text
    pub before : List Text
    pub after : List Text
    pub listed : es ≡ before ++ endpoint ∷ after
    pub kernel : js.Value
    pub tip_reply : js.Value
    pub height : ℕ
    pub tip : ℕ
    pub has_kernel : rpc js post endpoint (get_kernel excess) ≡ some kernel
    pub at_height : kernel_height js kernel ≡ some height
    pub has_tip : rpc js post endpoint get_tip ≡ some tip_reply
    pub at_tip : member_u64 js tip_reply (lit "height") ≡ some tip
    pub result : k.height ≡ some height
    pub deep : height + min_conf ≤ tip + 1

  depth-deep : (tip h n : ℕ) → 2 ≤ n → n ≤ depth tip h → h + n ≤ tip + 1
  unfolding depth
  depth-deep tip h n two le = ground arith

  found_at-deep :
      (height tip : Option ℕ) (n : ℕ)
      → 2 ≤ n
      → confirmed n (found_at height tip) ≡ true
      → (h : ℕ) × (t : ℕ) × (height ≡ some h) × (tip ≡ some t) × (h + n ≤ t + 1)
  unfolding found_at confirmed
  found_at-deep none none n two c = absurd (ground arith)
  found_at-deep none (some t) n two c = absurd (ground arith)
  found_at-deep (some h) none n two c = absurd (ground arith)
  found_at-deep (some h) (some t) n two c =
      (h, t, refl, refl, depth-deep t h n two (leb→le n (depth t h) c))

  found_at-height :
      (height tip : Option ℕ) (h : ℕ) → height ≡ some h → (found_at height tip).height ≡ some h
  unfolding found_at
  found_at-height none none h e = e
  found_at-height none (some t) h e = e
  found_at-height (some x) none h e = e
  found_at-height (some x) (some t) h e = e

  not_found-refused : (n : ℕ) → confirmed n not_found ≡ false
  unfolding not_found confirmed
  not_found-refused n = refl

  kernel_one-Buried :
      (es : List Text) (excess : Text) (n : ℕ) (k : KernelResult)
      → 2 ≤ n
      → confirmed n k ≡ true
      → First (kernel_one js post excess) es k
      → Buried es n excess k
  unfolding kernel_one
  kernel_one-Buried es excess n k two c f =
      let endpoint = f.endpoint in
      let (kernel, has_kernel, h1) =
        >>=-eq-some (rpc js post endpoint (get_kernel excess)) _ f.answers in
      elim (Bool-cases (is_null js kernel)) [
        | inl e ↦ absurd (ground (arith, not_found-refused n))
        | inr e ↦
            let h2 : (rpc js post endpoint get_tip >>= λ tip.
            some (found_at (kernel_height js kernel) (member_u64 js tip (lit "height"))))
                ≡ some k =
              rw e at h1 in
            let (tip_reply, has_tip, h3) = >>=-eq-some (rpc js post endpoint get_tip) _ h2 in
            let same : found_at (kernel_height js kernel) (member_u64 js tip_reply (lit "height"))
                ≡ k =
              cc in
            let (h, t, eh, et, deep) =
              found_at-deep (kernel_height js kernel) (member_u64 js tip_reply (lit "height")) n two
                (rw same c) in
            record {
              endpoint = endpoint;
              before = f.before;
              after = f.after;
              listed = f.split;
              kernel = kernel;
              tip_reply = tip_reply;
              height = h;
              tip = t;
              has_kernel = has_kernel;
              at_height = eh;
              has_tip = has_tip;
              at_tip = et;
              result = ap (λ r. r.height) (sym same) ∙ found_at-height _ _ h eh;
              deep = deep;
            }
      ]

  -- With at least two confirmations asked for, a kernel that counts as confirmed was reported by one
  -- endpoint of the list at a height that is at least that deep under the tip that the same endpoint reported.
  pub node_client-Buried :
      (es : List Text) (excess : Text) (n : ℕ) (k : KernelResult)
      → 2 ≤ n
      → (node_client js post es).kernel excess ≡ some k
      → confirmed n k ≡ true
      → Buried es n excess k
  node_client-Buried es excess n k two h c =
      kernel_one-Buried es excess n k two c ((node_client-First js post es excess k 0).0.0 h)
