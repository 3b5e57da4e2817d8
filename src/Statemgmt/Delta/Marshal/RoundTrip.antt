-- ===== src/Statemgmt/Delta/Marshal/RoundTrip.antt =====
-- `Unmarshal` after `Marshal`, over any encoding that reads back what it wrote.
use hyperledger_fabric.Base.{string_key, length}
use hyperledger_fabric.Base.Map.{
  Map, lookup, insert, DistinctKeys, Entries, Fresh, insert-fresh, insert-Fresh,
}
use hyperledger_fabric.Statemgmt.Delta.{UpdatedValue, ChaincodeStateDelta, StateDelta}
use hyperledger_fabric.Statemgmt.Delta.Merge.{IsDelta, IsDeltas}
use hyperledger_fabric.Statemgmt.Delta.Marshal.{
  Buffer, bytes_of, marshal_kvs, chaincode_marshal, marshal_deltas, marshal, slice_of,
  unmarshal_entry, unmarshal_kvs, chaincode_unmarshal, unmarshal_deltas, filled, unmarshal,
}
use Prim.Native.Nat.{ℕ, ◌<◌}
use Prim.Native.String.{String}
use mathlib.Core.Path.{◌≡◌, refl, sym, ap, ◌∙◌}
use mathlib.Core.Bool.{true}
use mathlib.Core.Option.{Option, some}
use mathlib.Core.List.{List, [], ◌∷◌, ◌++◌, append_assoc, append-nil}

-- What an encoder appends is read back by the decoder, and the rest is left.
abbrev pub IsReadBack :
    {A : Type 0} → (A → Option (List ℕ)) → (List ℕ → Option (A × List ℕ)) → A → Type 0
IsReadBack {A} encode decode x =
    (b : List ℕ) × (encode x ≡ some b) × ((rest : List ℕ) → decode (b ++ rest) ≡ some (x, rest))

-- The documented behaviour of `proto.Buffer`; a varint has 64 bits.
pub record IsCodec (p : Buffer) : Type 0 where
  pub varint : (n : ℕ) → n < 18446744073709551616 → IsReadBack p.encode_varint p.decode_varint n
  pub string : (s : String) → IsReadBack p.encode_string p.decode_string s
  pub raw : (b : List ℕ) → IsReadBack p.encode_raw p.decode_raw b

-- What is kept of a delta: an empty slice becomes nil, and the identifiers are those of the map.
abbrev pub kept : UpdatedValue → UpdatedValue
kept u = record {
  value = slice_of (bytes_of u.value);
  previous_value = slice_of (bytes_of u.previous_value);
}

abbrev pub kept_kvs : Map String UpdatedValue → Map String UpdatedValue
kept_kvs [] = []
kept_kvs ((key, u) ∷ m) = (key, kept u) ∷ kept_kvs m

abbrev pub kept_deltas : Map String ChaincodeStateDelta → Map String ChaincodeStateDelta
kept_deltas [] = []
kept_deltas ((id, c) ∷ m) =
    (id, record { chaincode_id = id; updated_kvs = kept_kvs c.updated_kvs }) ∷ kept_deltas m

-- The number of keys of each chaincode is a 64-bit number.
abbrev pub HaveSizes : Map String ChaincodeStateDelta → Type 0
HaveSizes m =
    Entries (λ (_ : String) (c : ChaincodeStateDelta). length c.updated_kvs < 18446744073709551616)
      m

nothing-Fresh : {V : Type 0} (m : Map String V) → Fresh [] m
unfolding lookup
nothing-Fresh [] = tt
nothing-Fresh ((key, v) ∷ m) = (refl, nothing-Fresh m)

module _ (p : Buffer) (codec : IsCodec p) where
  abbrev KvsRead : Map String UpdatedValue → List ℕ → Type 0
  KvsRead m b =
      (rest : List ℕ) (acc : Map String UpdatedValue)
      → DistinctKeys m
      → Fresh acc m
      → unmarshal_kvs p (length m) (b ++ rest) acc ≡ some (acc ++ kept_kvs m, rest)

  unmarshal_kvs-marshal_kvs :
      (m : Map String UpdatedValue) → (b : List ℕ) × (marshal_kvs p m ≡ some b) × KvsRead m b
  unfolding marshal_kvs unmarshal_kvs unmarshal_entry
  unmarshal_kvs-marshal_kvs [] =
      ([], refl, λ rest acc _ _. ap (λ x. some (x, rest)) (sym (append-nil acc)))
  unmarshal_kvs-marshal_kvs ((key, u) ∷ m) =
      let (k, ek, dk) = codec.string key in
      let (v, ev, dv) = codec.raw (bytes_of u.value) in
      let (q, eq, dq) = codec.raw (bytes_of u.previous_value) in
      let (r, er, dr) = unmarshal_kvs-marshal_kvs m in
      (
        k ++ (v ++ (q ++ r)),
        rw (ek, ev, eq, er, marshal_kvs) refl,
        λ rest acc (new, distinct) (fresh, others).
            rw
              (
                append_assoc k (v ++ (q ++ r)) rest,
                dk ((v ++ (q ++ r)) ++ rest),
                append_assoc v (q ++ r) rest,
                dv ((q ++ r) ++ rest),
                append_assoc q r rest,
                dq (r ++ rest),
                unmarshal_kvs,
                unmarshal_entry,
              )
              (dr rest (insert key (kept u) acc) distinct
                  (insert-Fresh key (kept u) acc m new others)
                ∙ ap (λ x. some (x, rest))
                    (ap (λ x. x ++ kept_kvs m) (insert-fresh key (kept u) acc fresh)
                      ∙ append_assoc acc ((key, kept u) ∷ []) (kept_kvs m))),
      )

  chaincode_unmarshal-chaincode_marshal :
      (c : ChaincodeStateDelta)
      → length c.updated_kvs < 18446744073709551616
      → (b : List ℕ) × (chaincode_marshal p c ≡ some b)
        × ((rest : List ℕ)
            → DistinctKeys c.updated_kvs
            → chaincode_unmarshal p (b ++ rest) ≡ some (kept_kvs c.updated_kvs, rest))
  unfolding chaincode_marshal chaincode_unmarshal lookup
  chaincode_unmarshal-chaincode_marshal c small =
      let (n, en, dn) = codec.varint (length c.updated_kvs) small in
      let (r, er, dr) = unmarshal_kvs-marshal_kvs c.updated_kvs in
      (
        n ++ r,
        rw (en, er) refl,
        λ rest distinct.
            rw (append_assoc n r rest, dn (r ++ rest), chaincode_unmarshal)
              (dr rest [] distinct (nothing-Fresh c.updated_kvs)),
      )

  abbrev DeltasRead : Map String ChaincodeStateDelta → List ℕ → Type 0
  DeltasRead m b =
      (rest : List ℕ) (acc : Map String ChaincodeStateDelta)
      → IsDeltas m
      → Fresh acc m
      → unmarshal_deltas p (length m) (b ++ rest) acc ≡ (acc ++ kept_deltas m, true)

  unmarshal_deltas-marshal_deltas :
      (m : Map String ChaincodeStateDelta)
      → HaveSizes m
      → (b : List ℕ) × (marshal_deltas p m ≡ some b) × DeltasRead m b
  unfolding marshal_deltas unmarshal_deltas
  unmarshal_deltas-marshal_deltas [] _ =
      ([], refl, λ rest acc _ _. ap (λ x. (x, true)) (sym (append-nil acc)))
  unmarshal_deltas-marshal_deltas ((id, c) ∷ m) (small, sizes) =
      let (k, ek, dk) = codec.string id in
      let (v, ev, dv) = chaincode_unmarshal-chaincode_marshal c small in
      let (r, er, dr) = unmarshal_deltas-marshal_deltas m sizes in
      let x : ChaincodeStateDelta = record {
        chaincode_id = id;
        updated_kvs = kept_kvs c.updated_kvs;
      } in
      (
        k ++ (v ++ r),
        rw (ek, ev, er) refl,
        λ rest acc h (fresh, others).
            rw
              (
                append_assoc k (v ++ r) rest,
                dk ((v ++ r) ++ rest),
                append_assoc v r rest,
                dv (r ++ rest) h.once_each.0,
              )
              (dr rest (insert id x acc) record { once = h.once.1; once_each = h.once_each.1 }
                  (insert-Fresh id x acc m h.once.0 others)
                ∙ ap (λ y. (y, true))
                    (ap (λ y. y ++ kept_deltas m) (insert-fresh id x acc fresh)
                      ∙ append_assoc acc ((id, x) ∷ []) (kept_deltas m))),
      )

  -- Over an encoding that reads back what it wrote, with nothing behind it, `Marshal` of a delta with
  -- fewer than 2^64 chaincodes and keys in each does not panic, and `Unmarshal` of the bytes ends without
  -- an error and puts the delta's chaincodes and keys into the receiver, with empty slices turned into
  -- nil. The receiver keeps its flag `RollBackwards`, which is not in the bytes.
  pub unmarshal-marshal :
      (d receiver : StateDelta)
      → IsDelta d
      → length d.chaincode_state_deltas < 18446744073709551616
      → HaveSizes d.chaincode_state_deltas
      → (b : List ℕ) × (marshal p d ≡ some b)
        × (unmarshal p b receiver ≡ (
          record receiver { chaincode_state_deltas = kept_deltas d.chaincode_state_deltas },
          true,
        ))
  unfolding marshal unmarshal lookup
  unmarshal-marshal d receiver h small sizes =
      let m = d.chaincode_state_deltas in
      let (n, en, dn) = codec.varint (length m) small in
      let (r, er, dr) = unmarshal_deltas-marshal_deltas m sizes in
      (
        n ++ r,
        rw (en, er) refl,
        rw (dn r, unmarshal)
            (ap (filled receiver) (
              ap (λ x. unmarshal_deltas p (length m) x []) (sym (append-nil r))
              ∙ dr [] [] h (nothing-Fresh m))),
      )
