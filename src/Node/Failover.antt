-- ===== src/Node/Failover.antt =====
-- The failover of the node client.
use goblin_nip05d.App.Moment.{KernelResult}
use goblin_nip05d.Text.{Text}
use goblin_nip05d.Prelude.{
  All, List, Option, Option-cases, [], ap, arith, inl, inr, none, refl, some, ℕ, ◌++◌, ◌↔◌, ◌∙◌,
  ◌∷◌, ◌≡◌,
}
use goblin_nip05d.Node.{Reply, Rpc, first_answer, kernel_one, node_client, tip_one}
use goblin_nip05d.Platform.{Json}

-- The entry of a list that answers first, with `a`.
pub record First {A : Type 0} (ask : Text → Option A) (es : List Text) (a : A) : Type 0 where
  pub before : List Text
  pub endpoint : Text
  pub after : List Text
  pub split : es ≡ before ++ endpoint ∷ after
  pub silent : All (λ e. ask e ≡ none) before
  pub answers : ask endpoint ≡ some a

module _ {A : Type 0} (ask : Text → Option A) where
  first_answer-First : (es : List Text) (a : A) → first_answer ask es ≡ some a → First ask es a
  unfolding first_answer
  first_answer-First [] a h = absurd (cc)
  first_answer-First (e ∷ es) a h = elim (Option-cases (ask e)) [
    | inl n ↦
        let f = first_answer-First es a (rw (n, first_answer) at h) in
        record {
          before = e ∷ f.before;
          endpoint = f.endpoint;
          after = f.after;
          split = ap (◌∷◌ e) f.split;
          silent = (n, f.silent);
          answers = f.answers;
        }
    | inr (b, n) ↦ record {
      before = [];
      endpoint = e;
      after = es;
      split = refl;
      silent = tt;
      answers = n ∙ (rw (n, first_answer) at h);
    }
  ]

  first_answer-skip :
      (before : List Text) (e : Text) (after : List Text) (a : A)
      → All (λ e. ask e ≡ none) before
      → ask e ≡ some a
      → first_answer ask (before ++ e ∷ after) ≡ some a
  unfolding first_answer
  first_answer-skip [] e after a s h = rw (h, first_answer)
  first_answer-skip (x ∷ before) e after a s h =
      rw (s.0, first_answer) (first_answer-skip before e after a s.1 h)

  pub first_answer_iff : (es : List Text) (a : A) → (first_answer ask es ≡ some a) ↔ First ask es a
  first_answer_iff es a = (
    first_answer-First es a,
    λ f. rw f.split (first_answer-skip f.before f.endpoint f.after a f.silent f.answers),
  )

  All-silent : (es : List Text) → first_answer ask es ≡ none → All (λ e. ask e ≡ none) es
  unfolding first_answer
  All-silent [] h = tt
  All-silent (e ∷ es) h = elim (Option-cases (ask e)) [
    | inl n ↦ (n, All-silent es (rw (n, first_answer) at h))
    | inr (b, n) ↦ absurd (ground arith)
  ]

  silent-none : (es : List Text) → All (λ e. ask e ≡ none) es → first_answer ask es ≡ none
  unfolding first_answer
  silent-none [] s = refl
  silent-none (e ∷ es) s = rw (s.0, first_answer) (silent-none es s.1)

module _ (js : Json) (post : Text → Rpc → Option (Reply js)) where
  -- The client's kernel lookup and its tip are those of the first endpoint that answers, in the order
  -- of the configuration, and they fail exactly when no endpoint answers.
  pub node_client-First :
      (es : List Text) (excess : Text) (r : KernelResult) (h : ℕ)
      → (((node_client js post es).kernel excess ≡ some r) ↔ First (kernel_one js post excess) es r)
        × (((node_client js post es).kernel excess ≡ none)
            ↔ All (λ e. kernel_one js post excess e ≡ none) es)
        × (((node_client js post es).tip_height ≡ some h) ↔ First (tip_one js post) es h)
        × (((node_client js post es).tip_height ≡ none) ↔ All (λ e. tip_one js post e ≡ none) es)
  unfolding node_client
  node_client-First es excess r h = (
    first_answer_iff (kernel_one js post excess) es r,
    (All-silent (kernel_one js post excess) es, silent-none (kernel_one js post excess) es),
    first_answer_iff (tip_one js post) es h,
    (All-silent (tip_one js post) es, silent-none (tip_one js post) es),
  )
