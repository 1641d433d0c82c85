-- ===== src/Tests/Encoding.antt =====
-- Concrete storage, hash and serialization, for the runs and the theorems at concrete inputs.
use leto_rs.Prelude.{
  ◌>>=◌, ℕ, zero, suc, ◌+◌, ◌<◌, ◌≡◌, ◌≢◌, refl, ap, inl, inr, Option, none, some, List, [], ◌∷◌,
  nat_eq, nat_beq, nat_beq_iff, Map, lookup, insert, lookup-insert, length, Bool-cases, arith,
}
use leto_rs.Types.{Signature, Certificate, Proposal, Element}
use leto_rs.Zeus.Types.{Attestation}
use leto_rs.ChainDb.{Storage, Bincode}
use leto_rs.ChainDb.Contents.{IsCollisionFree}
use leto_rs.Leto.ChainState.{Database}

-- `k` behind `x` in one number.
double : ℕ → ℕ → ℕ
double zero k = suc (k + k)
double (suc x) k = double x k + double x k

unfoldable pub fold_hash : List ℕ → ℕ
unfolding double
fold_hash [] = 0
fold_hash (x ∷ xs) = double x (fold_hash xs)

double_positive : (x k : ℕ) → 0 < double x k
unfolding double
double_positive zero k = omega arith
double_positive (suc x) k = omega (arith, double_positive x k)

double_injective : (x y j k : ℕ) → double x j ≡ double y k → (x ≡ y) × (j ≡ k)
unfolding double
double_injective zero zero j k e = (refl, omega (arith, e))
double_injective zero (suc y) j k e = let x : ⊥ = omega (arith, e) in elim x [ ]
double_injective (suc x) zero j k e = let y : ⊥ = omega (arith, e) in elim y [ ]
double_injective (suc x) (suc y) j k e =
    let (f, g) = double_injective x y j k (omega (arith, e)) in (ap suc f, g)

pub hash_injective : (u v : List ℕ) → fold_hash u ≡ fold_hash v → u ≡ v
unfolding fold_hash
hash_injective [] [] e = refl
hash_injective [] (y ∷ v) e =
    let x : ⊥ = omega (arith, e, double_positive y (fold_hash v)) in elim x [ ]
hash_injective (x ∷ u) [] e =
    let y : ⊥ = omega (arith, e, double_positive x (fold_hash u)) in elim y [ ]
hash_injective (x ∷ u) (y ∷ v) e =
    let (f, g) = double_injective x y (fold_hash u) (fold_hash v) e in
    rw (f, hash_injective u v g) refl

abbrev pub Disk : Type 0
Disk = Map ℕ (List ℕ)

pub read_same : (s : Disk) (k : ℕ) (v : List ℕ) → lookup k (insert k v s) ≡ some v
read_same s k v = ground (arith, lookup-insert k k v s, nat_beq_iff k k)

pub read_other : (s : Disk) (j k : ℕ) (v : List ℕ) → j ≢ k → lookup k (insert j v s) ≡ lookup k s
read_other s j k v h = elim (Bool-cases (nat_beq j k)) [
  | inl e ↦ elim (h ((nat_beq_iff j k).0 e)) [ ]
  | inr e ↦ rw (lookup-insert k j v s, e) refl
]

unfoldable pub disk : Storage Disk
disk = record {
  store_read = λ s k. lookup k s;
  store_write = λ s k v. insert k v s;
  read-write = read_same;
  read-write_other = read_other;
}

-- A value in front of what follows it.
pub record Coder (A : Type 0) : Type 0 where
  pub put : A → List ℕ → List ℕ
  pub get : List ℕ → Option (A × List ℕ)
  pub get-put : (a : A) (rest : List ℕ) → get (put a rest) ≡ some (a, rest)

abbrev pub get_number : List ℕ → Option (ℕ × List ℕ)
get_number [] = none
get_number (n ∷ rest) = some (n, rest)

unfoldable pub number : Coder ℕ
number = record { put = λ n rest. n ∷ rest; get = get_number; get-put = λ a rest. refl }

module _ {A B : Type 0} (a : Coder A) (b : Coder B) where
  unfoldable pub both : Coder (A × B)
  both = record {
    put = λ (x, y) rest. a.put x (b.put y rest);
    get = λ v. a.get v >>= λ (x, u). b.get u >>= λ (y, w). some ((x, y), w);
    get-put = λ (x, y) rest. rw (a.get-put x (b.put y rest), b.get-put y rest) refl;
  }

module _ {A B : Type 0} (a : Coder A) where
  -- The same values in another form.
  unfoldable pub recoded : (f : A → B) (g : B → A) → ((y : B) → f (g y) ≡ y) → Coder B
  recoded f g h = record {
    put = λ y. a.put (g y);
    get = λ v. a.get v >>= λ (x, u). some (f x, u);
    get-put = λ y rest. rw (a.get-put (g y) rest, h y) refl;
  }

module _ {A : Type 0} (a : Coder A) where
  unfoldable pub put_items : List A → List ℕ → List ℕ
  put_items [] rest = rest
  put_items (x ∷ xs) rest = a.put x (put_items xs rest)

  unfoldable pub get_items : ℕ → List ℕ → Option (List A × List ℕ)
  get_items zero v = some ([], v)
  get_items (suc n) v = a.get v >>= λ (x, u). get_items n u >>= λ (xs, w). some (x ∷ xs, w)

  pub get-put_items :
      (xs : List A) (rest : List ℕ) → get_items (length xs) (put_items xs rest) ≡ some (xs, rest)
  unfolding put_items get_items
  get-put_items [] rest = refl
  get-put_items (x ∷ xs) rest =
      rw (a.get-put x (put_items xs rest), ◌>>=◌, get-put_items xs rest) refl

  unfoldable pub list : Coder (List A)
  unfolding put_items get_items
  list = record {
    put = λ xs rest. length xs ∷ put_items xs rest;
    get = λ v. get_number v >>= λ (n, u). get_items n u;
    get-put = get-put_items;
  }

  -- `bincode` of the values.
  unfoldable pub bincode : Bincode A
  bincode = record {
    serialize = λ x. a.put x [];
    deserialize = λ v. a.get v >>= λ (x, u). some x;
    deserialize-serialize = λ x. rw (a.get-put x []) refl;
  }

abbrev pub either_get : {A : Type 0} → Coder A → List ℕ → Option (Option A × List ℕ)
either_get a [] = none
either_get a (zero ∷ v) = some (none, v)
either_get a (suc n ∷ v) = a.get v >>= λ (x, u). some (some x, u)

abbrev pub either_put : {A : Type 0} → Coder A → Option A → List ℕ → List ℕ
either_put a none rest = 0 ∷ rest
either_put a (some x) rest = 1 ∷ a.put x rest

pub either_law :
    {A : Type 0} (a : Coder A) (o : Option A) (rest : List ℕ)
    → either_get a (either_put a o rest) ≡ some (o, rest)
either_law a none rest = refl
either_law a (some x) rest = rw (a.get-put x rest) refl

unfoldable pub option : {A : Type 0} → Coder A → Coder (Option A)
option a = record { put = either_put a; get = either_get a; get-put = either_law a }

unfoldable pub signature : Coder Signature
unfolding list
signature =
    recoded (both (list number) number) (λ (raw, id). record { raw = raw; id = id })
      (λ s. (s.raw, s.id)) (λ s. refl)

unfoldable pub certificate : Coder Certificate
unfolding list
certificate =
    recoded (list signature) (λ sigs. record { raw_sigs = sigs }) (λ c. c.raw_sigs) (λ c. refl)

unfoldable pub proposal : Coder Proposal
unfolding list option
proposal =
    recoded (both (both number number) (both (option (list certificate)) number))
      (λ ((batch_hash, prev_hash), (qc, round)). record {
        block = record { batch_hash = batch_hash; prev_hash = prev_hash };
        qc = qc;
        round = round;
      })
      (λ p. ((p.block.batch_hash, p.block.prev_hash), (p.qc, p.round))) (λ p. refl)

unfoldable pub element : Coder (Element ℕ)
unfolding list
element =
    recoded (both proposal (both signature (list number)))
      (λ (p, (auth, batch)). record { proposal = p; auth = auth; batch = batch })
      (λ e. (e.proposal, (e.auth, e.batch))) (λ e. refl)

unfoldable pub attestation : Coder Attestation
unfolding list
attestation =
    recoded
      (both (both (both number number) (both number number))
        (both (both number number) (both (list number) number)))
      (λ (((epoch_s, round_s), (hash, height)), ((epoch, parent), (raw, signer))). record {
        envelope = record {
          epoch_s = epoch_s;
          round_s = round_s;
          data_block_hash = hash;
          data_block_height = height;
          data_block_epoch = epoch;
          parent_hash_s = parent;
        };
        sig_s = record { raw = raw; signer = signer };
      })
      (λ a. (
        (
          (a.envelope.epoch_s, a.envelope.round_s),
          (a.envelope.data_block_hash, a.envelope.data_block_height),
        ),
        ((a.envelope.data_block_epoch, a.envelope.parent_hash_s), (a.sig_s.raw, a.sig_s.signer)),
      ))
      (λ a. refl)

unfoldable pub sig_element : Coder (Element Attestation)
unfolding list
sig_element =
    recoded (both proposal (both signature (list attestation)))
      (λ (p, (auth, batch)). record { proposal = p; auth = auth; batch = batch })
      (λ e. (e.proposal, (e.auth, e.batch))) (λ e. refl)

-- The storage of the signature chain.
unfoldable pub sig_database : Database Attestation Disk
unfolding list bincode disk
sig_database = record {
  storage = disk;
  do_hash = fold_hash;
  elements = bincode sig_element;
  batches = bincode (list attestation);
}

unfoldable pub database : Database ℕ Disk
unfolding list bincode disk
database = record {
  storage = disk;
  do_hash = fold_hash;
  elements = bincode element;
  batches = bincode (list number);
}

pub no_collisions : IsCollisionFree database.storage database.do_hash
unfolding database
no_collisions u v e = hash_injective u v e
