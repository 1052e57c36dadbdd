-- ===== src/Handlers/Listing.antt =====
-- ListTopics against DescribeTopic.
use distributed_message_brok.Prelude.{
  suc, ◌≡◌, inl, inr, refl, ap, ◌∙◌, arith, List, [], ◌∷◌, map, some, true, false, length, All,
  Bool-cases, if◌then◌else◌, ok,
}
use distributed_message_brok.Bytes.{Bytes, eq_bytes, eq_bytes_refl, eq_bytes_sound}
use distributed_message_brok.Topics.{Topic, find_topic}
use distributed_message_brok.Topics.Manager.{Manager, get_topic}
use distributed_message_brok.Topics.Upkeep.{lt_bytes, insert_by_name, sort_by_name, list_topics}
use distributed_message_brok.Handlers.{is_nil}
use distributed_message_brok.Handlers.Admin.{
  TopicMetadata, convert_topic, describe_answer, admin_list_topics, admin_describe_topic,
}

-- The names of the registry, a map, differ.
abbrev pub Distinct : List Topic → Type 0
Distinct [] = Unit
Distinct (t ∷ ts) = All (λ u. eq_bytes u.name t.name ≡ false) ts × Distinct ts

-- Names that rise.
abbrev pub Rising : List TopicMetadata → Type 0
Rising [] = Unit
Rising (x ∷ []) = Unit
Rising (x ∷ y ∷ zs) = (lt_bytes x.name y.name ≡ true) × Rising (y ∷ zs)

lt_bytes-total :
    (xs ys : Bytes) → lt_bytes xs ys ≡ false → eq_bytes ys xs ≡ false → lt_bytes ys xs ≡ true
unfolding lt_bytes eq_bytes
lt_bytes-total [] [] h e = cc
lt_bytes-total [] (y ∷ ys) h e = cc
lt_bytes-total (x ∷ xs) [] h e = refl
lt_bytes-total (x ∷ xs) (y ∷ ys) h e = ground (arith, lt_bytes-total xs ys)

insert_by_name-All :
    (P : Topic → Type 0) (t : Topic) (ts : List Topic)
    → P t
    → All P ts
    → All P (insert_by_name t ts)
unfolding insert_by_name
insert_by_name-All P t [] h hs = (h, tt)
insert_by_name-All P t (u ∷ us) h (k, ks) = elim (Bool-cases (lt_bytes t.name u.name)) [
  | inl before ↦ rw before (h, (k, ks))
  | inr behind ↦ rw behind (k, insert_by_name-All P t us h ks)
]

sort_by_name-All : (P : Topic → Type 0) (ts : List Topic) → All P ts → All P (sort_by_name ts)
unfolding sort_by_name
sort_by_name-All P [] hs = tt
sort_by_name-All P (t ∷ ts) (h, hs) =
    insert_by_name-All P t (sort_by_name ts) h (sort_by_name-All P ts hs)

-- The first of a list that rises is above `lo`.
abbrev Above : Bytes → List Topic → Type 0
Above lo [] = Unit
Above lo (t ∷ ts) = lt_bytes lo t.name ≡ true

abbrev RisingTopics : List Topic → Type 0
RisingTopics [] = Unit
RisingTopics (t ∷ ts) = Above t.name ts × RisingTopics ts

insert_by_name-Above :
    (lo : Bytes) (t : Topic) (ts : List Topic)
    → lt_bytes lo t.name ≡ true
    → Above lo ts
    → Above lo (insert_by_name t ts)
unfolding insert_by_name
insert_by_name-Above lo t [] h a = h
insert_by_name-Above lo t (u ∷ us) h a = elim (Bool-cases (lt_bytes t.name u.name)) [
  | inl before ↦ rw before h
  | inr behind ↦ rw behind a
]

insert_by_name-Rising :
    (t : Topic) (ts : List Topic)
    → All (λ u. eq_bytes u.name t.name ≡ false) ts
    → RisingTopics ts
    → RisingTopics (insert_by_name t ts)
unfolding insert_by_name
insert_by_name-Rising t [] d r = (tt, tt)
insert_by_name-Rising t (u ∷ us) (d, ds) (a, r) = elim (Bool-cases (lt_bytes t.name u.name)) [
  | inl before ↦ rw before (before, (a, r))
  | inr behind ↦ rw behind (
    insert_by_name-Above u.name t us (lt_bytes-total t.name u.name behind d) a,
    insert_by_name-Rising t us ds r,
  )
]

sort_by_name-Rising : (ts : List Topic) → Distinct ts → RisingTopics (sort_by_name ts)
unfolding sort_by_name
sort_by_name-Rising [] d = tt
sort_by_name-Rising (t ∷ ts) (d, ds) =
    insert_by_name-Rising t (sort_by_name ts)
      (sort_by_name-All (λ u. eq_bytes u.name t.name ≡ false) ts d) (sort_by_name-Rising ts ds)

Rising-convert : (ts : List Topic) → RisingTopics ts → Rising (map convert_topic ts)
unfolding convert_topic
Rising-convert [] r = tt
Rising-convert (t ∷ []) r = tt
Rising-convert (t ∷ u ∷ us) (a, r) = (a, Rising-convert (u ∷ us) r)

-- Each topic is the one that its name finds.
find_topic_self : (ts : List Topic) → Distinct ts → All (λ t. find_topic t.name ts ≡ some t) ts
unfolding find_topic
find_topic_self [] d = tt
find_topic_self (t ∷ ts) (d, ds) =
    (rw (eq_bytes_refl t.name) refl, later ts ds d (find_topic_self ts ds))
  where
    later :
        (us : List Topic)
        → Distinct us
        → All (λ u. eq_bytes u.name t.name ≡ false) us
        → All (λ u. find_topic u.name ts ≡ some u) us
        → All (λ u. (if eq_bytes t.name u.name then some t else find_topic u.name ts) ≡ some u) us
    later [] e f g = tt
    later (u ∷ us) (e, es) (f, fs) (g, gs) =
        let back = eq_bytes_sound t.name u.name in
        let self = eq_bytes_refl t.name in
        (
          elim (Bool-cases (eq_bytes t.name u.name)) [
            | inl same ↦ absurd (ground (arith, back, self))
            | inr other ↦ rw other g
          ],
          later us es fs gs,
        )

All-convert :
    (P : TopicMetadata → Type 0) (ts : List Topic)
    → All (λ t. P (convert_topic t)) ts
    → All P (map convert_topic ts)
All-convert P [] h = tt
All-convert P (t ∷ ts) (h, hs) = (h, All-convert P ts hs)

length-insert_by_name :
    (t : Topic) (ts : List Topic) → length (insert_by_name t ts) ≡ suc (length ts)
unfolding insert_by_name
length-insert_by_name t [] = refl
length-insert_by_name t (u ∷ us) = ground (arith, length-insert_by_name t us)

length-listing : (ts : List Topic) → length (map convert_topic (sort_by_name ts)) ≡ length ts
unfolding sort_by_name
length-listing ts = length-converted (sort_by_name ts) ∙ sorted ts
  where
    length-converted : (us : List Topic) → length (map convert_topic us) ≡ length us
    length-converted [] = refl
    length-converted (u ∷ us) = ap suc (length-converted us)

    sorted : (us : List Topic) → length (sort_by_name us) ≡ length us
    sorted [] = refl
    sorted (u ∷ us) = length-insert_by_name u (sort_by_name us) ∙ ap suc (sorted us)

-- ListTopics of a registry whose names differ and are not empty lists as many topics as it has, by
-- rising names, and each entry is what DescribeTopic answers for its name.
pub admin_list_topics-describe :
    (m : Manager)
    → Distinct m.topics
    → All (λ t. is_nil t.name ≡ false) m.topics
    → (length (admin_list_topics m) ≡ length m.topics)
      × Rising (admin_list_topics m)
      × All (λ x. admin_describe_topic x.name m ≡ ok x) (admin_list_topics m)
unfolding admin_list_topics list_topics admin_describe_topic convert_topic describe_answer get_topic
admin_list_topics-describe m d n = (
  length-listing m.topics,
  Rising-convert (sort_by_name m.topics) (sort_by_name-Rising m.topics d),
  All-convert (λ x. admin_describe_topic x.name m ≡ ok x) (sort_by_name m.topics)
      (sort_by_name-All (λ t. admin_describe_topic t.name m ≡ ok (convert_topic t)) m.topics
        (both m.topics n (find_topic_self m.topics d))),
)
  where
    both :
        (ts : List Topic)
        → All (λ t. is_nil t.name ≡ false) ts
        → All (λ t. find_topic t.name m.topics ≡ some t) ts
        → All (λ t. admin_describe_topic t.name m ≡ ok (convert_topic t)) ts
    both [] a b = tt
    both (t ∷ ts) (a, rest) (b, bs) = (rw (a, get_topic, b) refl, both ts rest bs)
