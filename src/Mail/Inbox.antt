-- ===== src/Mail/Inbox.antt =====
-- What the mail store in memory gives for the messages that were added.
use mathlib.Core.List.Memᴰ as MemD
use mathlib.Core.List.{reverse-cons, reverse-append}
use text.Mathlib.TextEquality.{eq_iff}
use mcp_lock.Prelude.{
  ℕ, zero, suc, ◌≤◌, String, ◌≡◌, refl, sym, ap, subst, inl, inr, ◌⊎◌, Bool, true, Option, none,
  some, List, [], ◌∷◌, ◌++◌, map, reverse, take, find, retain, length, Memᴰ, arith, nat_eq_iff,
  ◌==◌, eq_string, Bool-cases, Option-cases, if◌then◌else◌,
}
use mcp_lock.Prelude.Results.{Result, ok, err, Result-cases}
use mcp_lock.Prelude.Search.{mem-append, mem-retain, find-eq-some}
use mcp_lock.Mail.Store.{MessageSummary, Message, MailError}
use mcp_lock.Mail.Fake.{
  StoredMessage, Mailbox, FakeMailStore, push_to, add_message, mailbox, summary_of, matches,
  has_uid, list_messages, search, fetch_message,
}

module _ {A : Type 0} where
  mem-take : (n : ℕ) (xs : List A) (x : A) → Memᴰ x (take n xs) → Memᴰ x xs
  mem-take zero xs x m = elim m [ ]
  mem-take (suc n) [] x m = elim m [ ]
  mem-take (suc n) (y ∷ ys) x (Memᴰ.head e) = Memᴰ.head e
  mem-take (suc n) (y ∷ ys) x (Memᴰ.tail m) = Memᴰ.tail (mem-take n ys x m)

  mem-reverse : (xs : List A) (x : A) → Memᴰ x (reverse xs) → Memᴰ x xs
  mem-reverse [] x m = m
  mem-reverse (y ∷ ys) x m =
      elim (mem-append (reverse ys) (y ∷ []) x (subst (Memᴰ x) (reverse-cons y ys) m)) [
        | inl l ↦ Memᴰ.tail (mem-reverse ys x l)
        | inr (Memᴰ.head e) ↦ Memᴰ.head e
        | inr (Memᴰ.tail t) ↦ elim t [ ]
      ]

  length-take-le : (n : ℕ) (xs : List A) → length (take n xs) ≤ n
  length-take-le zero xs = omega arith
  length-take-le (suc n) [] = omega arith
  length-take-le (suc n) (x ∷ xs) = omega (arith, length-take-le n xs)

  length-map : {B : Type 0} (f : A → B) (xs : List A) → length (map f xs) ≡ length xs
  length-map f [] = refl
  length-map f (x ∷ xs) = ap suc (length-map f xs)

  find_of_mem :
      (p : A → Bool) (xs : List A) (x : A) → Memᴰ x xs → p x ≡ true → (y : A) × (find p xs ≡ some y)
  find_of_mem p [] x m h = elim m [ ]
  find_of_mem p (y ∷ ys) x (Memᴰ.head e) h = (y, rw (← e, h) refl)
  find_of_mem p (y ∷ ys) x (Memᴰ.tail m) h = elim (Bool-cases (p y)) [
    | inl hit ↦ (y, rw hit refl)
    | inr miss ↦ rw miss (find_of_mem p ys x m h)
  ]

-- The message that the store gives for an identifier has it.
abbrev pub CanFetch : FakeMailStore → String → ℕ → Type 0
CanFetch store name uid = (m : Message) × (fetch_message store name uid ≡ ok m) × (m.uid ≡ uid)

fetch_of_mem :
    (store : FakeMailStore) (name : String) (mb : Mailbox) (s : StoredMessage)
    → mailbox store name ≡ ok mb
    → Memᴰ s mb.messages
    → CanFetch store name s.message.uid
unfolding fetch_message
fetch_of_mem store name mb s open_box m =
    let (y, found) =
      find_of_mem (has_uid s.message.uid) mb.messages s m ((nat_eq_iff _ _).1 refl) in
    let (there, same) = find-eq-some (has_uid s.message.uid) mb.messages y found in
    (y.message, rw (open_box, found) refl, (nat_eq_iff _ _).0 same)

summary_of_mem :
    (xs : List StoredMessage) (limit : ℕ) (r : MessageSummary)
    → Memᴰ r (map summary_of (take limit xs))
    → (s : StoredMessage) × Memᴰ s xs × (r ≡ summary_of s)
summary_of_mem xs limit r m =
    let (s, there, e) = MemD.of_map summary_of (take limit xs) m in
    (s, mem-take limit xs s there, sym e)

-- The result that a request gives for a list of messages of the mailbox.
abbrev IsServed : FakeMailStore → String → ℕ → List MessageSummary → Type 0
IsServed store name limit rs =
    (length rs ≤ limit) × ((r : MessageSummary) → Memᴰ r rs → CanFetch store name r.uid)

shown-IsServed :
    (store : FakeMailStore) (name : String) (mb : Mailbox) (xs : List StoredMessage) (limit : ℕ)
    → mailbox store name ≡ ok mb
    → ((s : StoredMessage) → Memᴰ s xs → Memᴰ s mb.messages)
    → IsServed store name limit (map summary_of (take limit xs))
shown-IsServed store name mb xs limit open_box inside = (
  rw (length-map summary_of (take limit xs)) (length-take-le limit xs),
  λ r m.
      let (s, there, e) = summary_of_mem xs limit r m in
      rw e (fetch_of_mem store name mb s open_box (inside s there)),
)

listed-IsServed :
    (store : FakeMailStore) (name : String) (limit : ℕ) (rs : List MessageSummary)
    → list_messages store name limit ≡ ok rs
    → IsServed store name limit rs
unfolding list_messages
listed-IsServed store name limit rs h = elim (Result-cases (mailbox store name)) [
  | inl (mb, e) ↦
      let same : map summary_of (take limit (reverse mb.messages)) ≡ rs = ground arith in
      subst (IsServed store name limit) same
        (shown-IsServed store name mb (reverse mb.messages) limit e (mem-reverse mb.messages))
  | inr (x, e) ↦ absurd (ground arith)
]

searched-IsServed :
    (to_lowercase : String → String) (store : FakeMailStore) (name query : String) (limit : ℕ)
    (rs : List MessageSummary)
    → search to_lowercase store name query limit ≡ ok rs
    → IsServed store name limit rs
unfolding search
searched-IsServed to_lowercase store name query limit rs h =
    elim (Result-cases (mailbox store name)) [
      | inl (mb, e) ↦
          let p = matches to_lowercase (to_lowercase query) in
          let same : map summary_of (take limit (retain p (reverse mb.messages))) ≡ rs =
            ground arith in
          subst (IsServed store name limit) same (
            shown-IsServed store name mb (retain p (reverse mb.messages)) limit e
              (λ s m. mem-reverse mb.messages s (mem-retain p (reverse mb.messages) s m).0))
      | inr (x, e) ↦ absurd (ground arith)
    ]

-- A listing and a search give at most as many messages as they are asked for, and each of them can be
-- fetched by its identifier.
pub search-CanFetch :
    (to_lowercase : String → String) (store : FakeMailStore) (name query : String) (limit : ℕ)
    (rs : List MessageSummary)
    → (list_messages store name limit ≡ ok rs)
      ⊎ (search to_lowercase store name query limit ≡ ok rs)
    → (length rs ≤ limit) × ((r : MessageSummary) → Memᴰ r rs → CanFetch store name r.uid)
search-CanFetch to_lowercase store name query limit rs (inl h) =
    listed-IsServed store name limit rs h
search-CanFetch to_lowercase store name query limit rs (inr h) =
    searched-IsServed to_lowercase store name query limit rs h

-- The messages of a mailbox that may not be there yet.
abbrev pub messages_of : Option Mailbox → List StoredMessage
messages_of none = []
messages_of (some mb) = mb.messages

find-push_to :
    (name j : String) (m : StoredMessage) (mbs : List Mailbox)
    → find (λ mb. mb.name == j) (push_to name m mbs) ≡ (
        if name == j
        then some (record {
          name = name;
          messages = messages_of (find (λ mb. mb.name == j) mbs) ++ m ∷ [];
        })
        else find (λ mb. mb.name == j) mbs)
find-push_to name j m [] = ground arith
find-push_to name j m (mb ∷ mbs) =
    ground (arith, eq_iff name j, eq_iff mb.name name, eq_iff mb.name j, find-push_to name j m mbs)

take-nil : {A : Type 0} (n : ℕ) → take {A = A} n [] ≡ []
take-nil zero = refl
take-nil (suc n) = refl

reverse-snoc : {A : Type 0} (xs : List A) (x : A) → reverse (xs ++ x ∷ []) ≡ x ∷ reverse xs
reverse-snoc xs x = reverse-append xs (x ∷ [])

-- What a listing gave, and nothing where there is no mailbox.
abbrev pub listing : Result (List MessageSummary) MailError → List MessageSummary
listing (ok rs) = rs
listing (err e) = []

-- A message that is added to a mailbox is listed first there, before what was listed; the listings of
-- all other mailboxes are as they were.
pub list_messages-add_message :
    (store : FakeMailStore) (name j : String) (m : Message) (seen : Bool) (n : ℕ)
    → list_messages (add_message store name m seen) j (suc n) ≡ (
        if name == j
        then ok
            (summary_of (record { message = m; seen = seen }) ∷ listing (list_messages store j n))
        else list_messages store j (suc n))
unfolding list_messages add_message mailbox
list_messages-add_message store name j m seen n =
    rw (find-push_to name j (record { message = m; seen = seen }) store.mailboxes)
      (elim (Bool-cases (name == j)) [
        | inl same ↦ elim (Option-cases (find (λ mb. mb.name == j) store.mailboxes)) [
          | inl new ↦
              rw (same, new)
                (ap
                  (λ xs. ok (summary_of (record { message = m; seen = seen }) ∷ map summary_of xs))
                  (take-nil n))
          | inr (mb, old) ↦
              rw (same, old)
                (ap (λ xs. ok (map summary_of (take (suc n) xs)))
                  (reverse-snoc mb.messages (record { message = m; seen = seen })))
        ]
        | inr other ↦ rw other refl
      ])
