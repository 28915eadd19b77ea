-- ===== src/Entries/Chain.antt =====
-- `verifyTransparencyEntries` of packages/portable-promotion-receipt/src/transparency.ts
-- beside the logs that appending makes.
use agent_airlock.Prelude.{
  ℕ, ◌+◌, ◌≡◌, ◌≢◌, refl, sym, ap, ◌∙◌, subst, ◌↔◌, true, false, List, [], ◌∷◌, ◌++◌, Option, none,
  some, map, All, arith, Bool-cases, inl, inr,
}
use agent_airlock.Prelude.Texts.{Text, text_eq, text_eq_refl, eq_of_text_eq, text_eq_iff}
use agent_airlock.Prelude.Results.{Result, ok, ◌>>=◌, Result-cases, ok-injective, >>=-eq_ok}
use agent_airlock.Canonical.{canonicalize, utf8_bytes}
use agent_airlock.Digest.{Sha256}
use agent_airlock.Digest.Laws.{sha256_digest-IsDigest}
use agent_airlock.Checkpoints.{same_prior}
use agent_airlock.Entries.{
  Entry, is_entry, contains, create_transparency_entry, hash_agrees, verify_entries_from,
  verify_transparency_entries, unsigned_json, entry_domain,
}

-- A log made by appending receipts, each at its time.
abbrev pub Receipt : Type 0
Receipt = Text × Text

abbrev pub receipt_of : Entry → Receipt
receipt_of e = (e.receipt_digest, e.appended_at)

-- No receipt stands in the log twice.
abbrev pub IsDistinct : List Entry → Type 0
IsDistinct [] = Unit
IsDistinct (e ∷ es) = All (λ x. x.receipt_digest ≢ e.receipt_digest) es × IsDistinct es

module _ (sha : Sha256) where
  pub append_entries : List Receipt → ℕ → Option Text → Result (List Entry)
  append_entries [] sequence prior = ok []
  append_entries ((digest, at) ∷ rest) sequence prior = do
    e ← create_transparency_entry sha digest sequence prior at
    es ← append_entries rest (sequence + 1) (some e.entry_hash)
    ok (e ∷ es)

  create-cases :
      (d : Text) (n : ℕ) (prior : Option Text) (at : Text) (e : Entry)
      → create_transparency_entry sha d n prior at ≡ ok e
      → (is_entry e ≡ true)
        × (e.sequence ≡ n)
        × (e.receipt_digest ≡ d)
        × (e.prior_entry_hash ≡ prior)
        × (e.appended_at ≡ at)
        × (e.schema_version ≡ 1)
  unfolding create_transparency_entry is_entry
  create-cases d n prior at e h = elim (Result-cases (canonicalize (unsigned_json n d prior at))) [
    | inr (m, bad) ↦ absurd (ground arith)
    | inl (text, fine) ↦
        let hashed = sha256_digest-IsDigest sha (entry_domain ++ utf8_bytes text) in
        (
          ground (arith, hashed),
          ground arith,
          ground arith,
          ground arith,
          ground arith,
          ground arith,
        )
  ]

  same_prior_refl : (p : Option Text) → same_prior p p ≡ true
  unfolding same_prior
  same_prior_refl none = refl
  same_prior_refl (some a) = text_eq_refl a

  eq_of_same_prior : (p q : Option Text) → same_prior p q ≡ true → p ≡ q
  unfolding same_prior
  eq_of_same_prior none none h = refl
  eq_of_same_prior (some a) (some b) h = ap some (eq_of_text_eq a b h)
  eq_of_same_prior none (some b) h = absurd (cc)
  eq_of_same_prior (some a) none h = absurd (cc)

  contains-cons :
      (t d : Text) (ts : List Text)
      → contains (t ∷ ts) d ≡ false
      → (d ≢ t) × (contains ts d ≡ false)
  unfolding contains
  contains-cons t d ts h = (
    (λ same. let equal : text_eq t d ≡ true = (text_eq_iff t d).1 (sym same) in ground arith),
    ground arith,
  )

  contains_of_ne :
      (t d : Text) (ts : List Text) → d ≢ t → contains ts d ≡ false → contains (t ∷ ts) d ≡ false
  unfolding contains
  contains_of_ne t d ts ne h = elim (Bool-cases (text_eq t d)) [
    | inl equal ↦ absurd (ne (sym (eq_of_text_eq t d equal)))
    | inr other ↦ rw other h
  ]

  -- Beside a set that holds one receipt more, the rest of a log.
  abbrev IsFresh : List Text → List Entry → Type 0
  IsFresh seen = All (λ x. contains seen x.receipt_digest ≡ false)

  IsFresh-of_cons :
      (t : Text) (seen : List Text) (es : List Entry)
      → IsFresh (t ∷ seen) es
      → All (λ x. x.receipt_digest ≢ t) es × IsFresh seen es
  IsFresh-of_cons t seen [] h = (tt, tt)
  IsFresh-of_cons t seen (e ∷ es) (p, h) =
      let (ne, out) = contains-cons t e.receipt_digest seen p in
      let (nes, outs) = IsFresh-of_cons t seen es h in ((ne, nes), (out, outs))

  cons_of_IsFresh :
      (t : Text) (seen : List Text) (es : List Entry)
      → All (λ x. x.receipt_digest ≢ t) es
      → IsFresh seen es
      → IsFresh (t ∷ seen) es
  cons_of_IsFresh t seen [] h k = tt
  cons_of_IsFresh t seen (e ∷ es) (p, h) (q, k) =
      (contains_of_ne t e.receipt_digest seen p q, cons_of_IsFresh t seen es h k)

  Entry_path :
      (a b : Entry)
      → a.schema_version ≡ b.schema_version
      → a.sequence ≡ b.sequence
      → a.receipt_digest ≡ b.receipt_digest
      → a.prior_entry_hash ≡ b.prior_entry_hash
      → a.appended_at ≡ b.appended_at
      → a.entry_hash ≡ b.entry_hash
      → a ≡ b
  Entry_path a b p q r s t u = λ i. record {
    schema_version = p i;
    sequence = q i;
    receipt_digest = r i;
    prior_entry_hash = s i;
    appended_at = t i;
    entry_hash = u i;
  }

  -- An entry that passes the loop's body is the one that appending makes.
  verified-create :
      (e : Entry) (n : ℕ) (prior : Option Text)
      → is_entry e ≡ true
      → e.sequence ≡ n
      → hash_agrees sha (create_transparency_entry sha e.receipt_digest n prior e.appended_at) e
        ≡ true
      → same_prior e.prior_entry_hash prior ≡ true
      → create_transparency_entry sha e.receipt_digest n prior e.appended_at ≡ ok e
  unfolding is_entry
  verified-create e n prior shape seq agrees link =
      elim (Result-cases (create_transparency_entry sha e.receipt_digest n prior e.appended_at)) [
        | inr (m, bad) ↦ absurd (cc (rw bad at agrees))
        | inl (x, made) ↦
            let (_, xs, xd, xp, xa, xv) =
              create-cases e.receipt_digest n prior e.appended_at x made in
            let hash = eq_of_text_eq x.entry_hash e.entry_hash (rw made at agrees) in
            let before = eq_of_same_prior e.prior_entry_hash prior link in
            let version : e.schema_version ≡ 1 = ground arith in
            made
            ∙ ap ok (Entry_path x e (xv ∙ sym version) (xs ∙ sym seq) xd (xp ∙ sym before) xa hash)
      ]

  verify_sound :
      (es : List Entry) (n : ℕ) (seen : List Text) (prior : Option Text)
      → verify_entries_from sha es n seen prior ≡ true
      → (append_entries (map receipt_of es) n prior ≡ ok es) × IsDistinct es × IsFresh seen es
  unfolding verify_entries_from append_entries
  verify_sound [] n seen prior h = (refl, tt, tt)
  verify_sound (e ∷ es) n seen prior h =
      let made =
        verified-create e n prior (ground arith) (ground arith) (ground arith) (ground arith) in
      let (rest, distinct, fresh) =
        verify_sound es (n + 1) (e.receipt_digest ∷ seen) (some e.entry_hash) (ground arith) in
      let (ne, out) = IsFresh-of_cons e.receipt_digest seen es fresh in
      (rw made (rw rest), (ne, distinct), (ground arith, out))

  verify_complete :
      (rs : List Receipt) (es : List Entry) (n : ℕ) (seen : List Text) (prior : Option Text)
      → append_entries rs n prior ≡ ok es
      → IsDistinct es
      → IsFresh seen es
      → verify_entries_from sha es n seen prior ≡ true
  unfolding verify_entries_from append_entries
  verify_complete [] es n seen prior h distinct fresh =
      subst (λ l. verify_entries_from sha l n seen prior ≡ true) (ok-injective h) refl
  verify_complete ((d, at) ∷ rs) es n seen prior h distinct fresh =
      let (e, made, more) =
        >>=-eq_ok (create_transparency_entry sha d n prior at)
          (λ e. append_entries rs (n + 1) (some e.entry_hash) >>= λ l. ok (e ∷ l)) h in
      let (l, rest, out) =
        >>=-eq_ok (append_entries rs (n + 1) (some e.entry_hash)) (λ l. ok (e ∷ l)) more in
      let whole : e ∷ l ≡ es = ok-injective out in
      let (nes, later) = subst IsDistinct (sym whole) distinct in
      let (new, news) = subst (IsFresh seen) (sym whole) fresh in
      let (shape, seq, digest, before, time, _) = create-cases d n prior at e made in
      let again : create_transparency_entry sha e.receipt_digest n prior e.appended_at ≡ ok e =
        rw (digest, time) made in
      let link : same_prior e.prior_entry_hash prior ≡ true = rw before (same_prior_refl prior) in
      let tail =
        verify_complete rs l (n + 1) (e.receipt_digest ∷ seen) (some e.entry_hash) rest later
          (cons_of_IsFresh e.receipt_digest seen l nes news) in
      subst (λ l. verify_entries_from sha l n seen prior ≡ true) whole
        (rw (shape, new, again, text_eq_refl, link, tail) (ground (arith, seq)))

  -- The verifier of a log's entries accepts exactly the logs that appending makes of their receipts
  -- and times, from number 0 and with no entry before, in which no receipt stands twice.
  pub verify_transparency_entries_iff :
      (es : List Entry)
      → (verify_transparency_entries sha es ≡ true)
        ↔ ((append_entries (map receipt_of es) 0 none ≡ ok es) × IsDistinct es)
  unfolding verify_transparency_entries
  verify_transparency_entries_iff es = (
    (λ h. let (made, distinct, _) = verify_sound es 0 [] none h in (made, distinct)),
    (λ h. verify_complete (map receipt_of es) es 0 [] none h.0 h.1 (nothing_seen es)),
  )
    where
      nothing_seen : (l : List Entry) → IsFresh [] l
      nothing_seen [] = tt
      nothing_seen (e ∷ l) = (unfold contains in refl, nothing_seen l)
