-- ===== src/Transfer/Tags.antt =====
-- The tags of an offer event: where the loop of `extract_offer_tags` takes each value from.
use goblin_nip05d.Text.Equality.{eq-of-text_eq}
use goblin_nip05d.Text.{Text, lit, text_eq}
use goblin_nip05d.Prelude.{
  Bool-cases, List, Option, [], arith, get_elem?, inl, inr, none, refl, some, true, ◌||◌, ◌∷◌, ◌≡◌,
  ◌⊎◌,
}
use goblin_nip05d.Transfer.{
  OfferTags, TagDraft, complete, draft_tag, draft_tags, extract_offer_tags, no_tags,
}
use goblin_nip05d.Platform.{Event}
use goblin_nip05d.Auth.Tags.{Some}

-- A tag of the key with the value.
abbrev pub Says : Text → Text → List Text → Type 0
Says key v tag = (more : List Text) × (tag ≡ key ∷ v ∷ more)

-- A field of the draft that only a tag of the key sets.
abbrev SetBy : (TagDraft → Option Text) → Text → Type 0
SetBy field key =
    (t : List Text) (d : TagDraft) (v : Text)
    → field (draft_tag t d) ≡ some v
    → (field d ≡ some v) ⊎ Says key v t

says :
    (key name : Text) (more : List Text) (v : Text)
    → text_eq key name ≡ true
    → get_elem? more 0 ≡ some v
    → Says name v (key ∷ more)
says key name [] v e h = absurd (cc)
says key name (w ∷ more) v e h = (more, cc (eq-of-text_eq key name e, h))

name_set : SetBy (λ d. d.name) (lit "name")
unfolding draft_tag
name_set [] d v h = inl h
name_set (key ∷ more) d v h = elim (Bool-cases (text_eq key (lit "name"))) [
  | inl e ↦ inr (says key (lit "name") more v e (ground arith))
  | inr e ↦ inl (ground arith)
]

domain_set : SetBy (λ d. d.domain) (lit "domain")
unfolding draft_tag
domain_set [] d v h = inl h
domain_set (key ∷ more) d v h = elim (Bool-cases (text_eq key (lit "domain"))) [
  | inl e ↦ elim (Bool-cases (text_eq key (lit "name"))) [
    | inl c ↦ inl (ground arith)
    | inr c ↦ inr (says key (lit "domain") more v e (ground arith))
  ]
  | inr e ↦ inl (ground arith)
]

buyer_set : SetBy (λ d. d.buyer) (lit "p")
unfolding draft_tag
buyer_set [] d v h = inl h
buyer_set (key ∷ more) d v h = elim (Bool-cases (text_eq key (lit "p"))) [
  | inl e ↦ elim (Bool-cases (text_eq key (lit "name") || text_eq key (lit "domain"))) [
    | inl c ↦ inl (ground arith)
    | inr c ↦ inr (says key (lit "p") more v e (ground arith))
  ]
  | inr e ↦ inl (ground arith)
]

price_set : SetBy (λ d. d.price) (lit "price")
unfolding draft_tag
price_set [] d v h = inl h
price_set (key ∷ more) d v h = elim (Bool-cases (text_eq key (lit "price"))) [
  | inl e ↦
      elim (Bool-cases
        (text_eq key (lit "name") || text_eq key (lit "domain") || text_eq key (lit "p"))) [
          | inl c ↦ inl (ground arith)
          | inr c ↦ inr (says key (lit "price") more v e (ground arith))
        ]
  | inr e ↦ inl (ground arith)
]

proof_address_set : SetBy (λ d. d.proof_address) (lit "proof_address")
unfolding draft_tag
proof_address_set [] d v h = inl h
proof_address_set (key ∷ more) d v h = elim (Bool-cases (text_eq key (lit "proof_address"))) [
  | inl e ↦
      elim (Bool-cases (
        text_eq key (lit "name")
        || text_eq key (lit "domain")
        || text_eq key (lit "p")
        || text_eq key (lit "price"))) [
          | inl c ↦ inl (ground arith)
          | inr c ↦ inr (says key (lit "proof_address") more v e (ground arith))
        ]
  | inr e ↦ inl (ground arith)
]

expiration_set : SetBy (λ d. d.expiration) (lit "expiration")
unfolding draft_tag
expiration_set [] d v h = inl h
expiration_set (key ∷ more) d v h = elim (Bool-cases (text_eq key (lit "expiration"))) [
  | inl e ↦
      elim (Bool-cases (
        text_eq key (lit "name")
        || text_eq key (lit "domain")
        || text_eq key (lit "p")
        || text_eq key (lit "price")
        || text_eq key (lit "proof_address"))) [
          | inl c ↦ inl (ground arith)
          | inr c ↦ inr (says key (lit "expiration") more v e (ground arith))
        ]
  | inr e ↦ inl (ground arith)
]

draft_tags-SetBy :
    (field : TagDraft → Option Text) (key : Text)
    → SetBy field key
    → (ts : List (List Text)) (d : TagDraft) (v : Text) → field (draft_tags ts d) ≡ some v
    → (field d ≡ some v) ⊎ Some (Says key v) ts
unfolding draft_tags
draft_tags-SetBy field key step [] d v h = inl h
draft_tags-SetBy field key step (t ∷ ts) d v h =
    elim (draft_tags-SetBy field key step ts (draft_tag t d) v h) [
      | inl e ↦ elim (step t d v e) [ inl a ↦ inl a | inr b ↦ inr (inl b) ]
      | inr r ↦ inr (inr r)
    ]

-- Each value of the extracted tags stands in a tag of the event under its own key.
pub record Tagged (event : Event) (tags : OfferTags) : Type 0 where
  pub name : Some (Says (lit "name") tags.name) event.tags
  pub domain : Some (Says (lit "domain") tags.domain) event.tags
  pub buyer : Some (Says (lit "p") tags.buyer) event.tags
  pub price : Some (Says (lit "price") tags.price) event.tags
  pub proof_address : Some (Says (lit "proof_address") tags.proof_address) event.tags
  pub expiration : Some (Says (lit "expiration") tags.expiration) event.tags

complete-name : (d : TagDraft) (tags : OfferTags) → complete d ≡ some tags → d.name ≡ some tags.name
unfolding complete
complete-name d tags h = ground arith

complete-domain :
    (d : TagDraft) (tags : OfferTags) → complete d ≡ some tags → d.domain ≡ some tags.domain
unfolding complete
complete-domain d tags h = ground arith

complete-buyer :
    (d : TagDraft) (tags : OfferTags) → complete d ≡ some tags → d.buyer ≡ some tags.buyer
unfolding complete
complete-buyer d tags h = ground arith

complete-price :
    (d : TagDraft) (tags : OfferTags) → complete d ≡ some tags → d.price ≡ some tags.price
unfolding complete
complete-price d tags h = ground arith

complete-proof_address :
    (d : TagDraft) (tags : OfferTags)
    → complete d ≡ some tags
    → d.proof_address ≡ some tags.proof_address
unfolding complete
complete-proof_address d tags h = ground arith

complete-expiration :
    (d : TagDraft) (tags : OfferTags) → complete d ≡ some tags → d.expiration ≡ some tags.expiration
unfolding complete
complete-expiration d tags h = ground arith

in_tags :
    (field : TagDraft → Option Text) (key : Text)
    → SetBy field key
    → (ts : List (List Text)) (v : Text) → field no_tags ≡ none
    → field (draft_tags ts no_tags) ≡ some v
    → Some (Says key v) ts
in_tags field key step ts v fresh h = elim (draft_tags-SetBy field key step ts no_tags v h) [
  | inl e ↦ absurd (cc)
  | inr r ↦ r
]

pub extract_offer_tags-Tagged :
    (event : Event) (tags : OfferTags) → extract_offer_tags event ≡ some tags → Tagged event tags
unfolding extract_offer_tags
extract_offer_tags-Tagged event tags h =
    let d = draft_tags event.tags no_tags in
    record {
      name =
          in_tags (λ d. d.name) (lit "name") name_set event.tags tags.name refl
            (complete-name d tags h);
      domain =
          in_tags (λ d. d.domain) (lit "domain") domain_set event.tags tags.domain refl
            (complete-domain d tags h);
      buyer =
          in_tags (λ d. d.buyer) (lit "p") buyer_set event.tags tags.buyer refl
            (complete-buyer d tags h);
      price =
          in_tags (λ d. d.price) (lit "price") price_set event.tags tags.price refl
            (complete-price d tags h);
      proof_address =
          in_tags (λ d. d.proof_address) (lit "proof_address") proof_address_set event.tags
            tags.proof_address refl (complete-proof_address d tags h);
      expiration =
          in_tags (λ d. d.expiration) (lit "expiration") expiration_set event.tags tags.expiration
            refl (complete-expiration d tags h);
    }
