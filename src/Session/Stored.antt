-- ===== src/Session/Stored.antt =====
-- apps/web/src/db/repositories/prekeys.ts: the laws of the prekey store.
use konvo_pro.Shared.{
  ℕ, suc, ◌≡◌, ◌≤◌, ◌<◌, refl, ap, arith, false, not, ◌&&◌, ltb, Option, none, some, List, [], ◌∷◌,
  ◌++◌, if◌then◌else◌, ok,
}
use Prim.Native.Nat.{max}
use konvo_pro.Session.PreKeys.{SignedPreKeyRecord, OneTimePreKeyRecord, PreKeyStoreLaws}
use konvo_pro.Session.Dexie.{
  PreKeyType, signed, opk, is_opk, same_type, PreKeyRow, list_unused_one_time_pre_key_count,
  highest_id, next_key_id_for, save_signed_pre_key, save_one_time_pre_key, newer, newest_signed,
  get_current_signed_pre_key, dexie,
}

count-append :
    (rows : List PreKeyRow) (r : PreKeyRow)
    → list_unused_one_time_pre_key_count (rows ++ (r ∷ [])) ≡ (
        if is_opk r.key_type && not r.used
        then suc (list_unused_one_time_pre_key_count rows)
        else list_unused_one_time_pre_key_count rows)
unfolding list_unused_one_time_pre_key_count
count-append [] r = ground arith
count-append (q ∷ rs) r = ground (arith, count-append rs r)

highest_id-append :
    (t : PreKeyType) (best : ℕ) (rows : List PreKeyRow) (r : PreKeyRow)
    → highest_id t best (rows ++ (r ∷ [])) ≡ (
        if same_type r.key_type t
        then max (highest_id t best rows) r.key_id
        else highest_id t best rows)
unfolding highest_id
highest_id-append t best [] r = ground arith
highest_id-append t best (q ∷ rs) r =
    highest_id-append t (if same_type q.key_type t && ltb best q.key_id then q.key_id else best) rs
      r

abbrev IsBelow : ℕ → Option PreKeyRow → Type 0
IsBelow hi none = Unit
IsBelow hi (some r) = r.key_id ≤ hi

newer-IsBelow :
    (hi : ℕ) (best : Option PreKeyRow) (r : PreKeyRow)
    → IsBelow hi best
    → IsBelow (if ltb hi r.key_id then r.key_id else hi) (newer best r)
newer-IsBelow hi none r h = ground arith
newer-IsBelow hi (some b) r h = ground (arith, h)

newest_signed-IsBelow :
    (hi : ℕ) (best : Option PreKeyRow) (rows : List PreKeyRow)
    → IsBelow hi best
    → IsBelow (highest_id signed hi rows) (newest_signed best rows)
unfolding highest_id newest_signed
newest_signed-IsBelow hi best [] h = h
newest_signed-IsBelow hi best (r ∷ rs) h =
    elim r.key_type
      as (λ (t : PreKeyType).
        IsBelow
          (highest_id signed (if same_type t signed && ltb hi r.key_id then r.key_id else hi) rs)
          (newest_signed (if is_opk t then best else newer best r) rs)) [
            | opk ↦ newest_signed-IsBelow hi best rs h
            | signed ↦
                newest_signed-IsBelow (if ltb hi r.key_id then r.key_id else hi) (newer best r) rs
                  (newer-IsBelow hi best r h)
          ]

newest_signed-append :
    (best : Option PreKeyRow) (rows : List PreKeyRow) (r : PreKeyRow)
    → newest_signed best (rows ++ (r ∷ []))
      ≡ (if is_opk r.key_type then newest_signed best rows else newer (newest_signed best rows) r)
unfolding newest_signed
newest_signed-append best [] r = refl
newest_signed-append best (q ∷ rs) r =
    newest_signed-append (if is_opk q.key_type then best else newer best q) rs r

newer_above :
    (hi : ℕ) (best : Option PreKeyRow) (r : PreKeyRow)
    → IsBelow hi best
    → hi < r.key_id
    → newer best r ≡ some r
newer_above hi none r h above = refl
newer_above hi (some b) r h above = ground (arith, h, above)

current_signed_saved :
    (rows : List PreKeyRow) (r : SignedPreKeyRecord)
    → r.key_id ≡ next_key_id_for signed rows
    → get_current_signed_pre_key (save_signed_pre_key rows r) ≡ ok (some r)
unfolding get_current_signed_pre_key save_signed_pre_key next_key_id_for
current_signed_saved rows r new =
    let row : PreKeyRow = record {
      key_type = signed;
      key_id = r.key_id;
      public_key = r.public_key;
      wrapped_private_key = r.wrapped_private_key;
      signature = some r.signature;
      created_at = r.created_at;
      used = false;
    } in
    ground (
      arith,
      newest_signed-append none rows row,
      newer_above (highest_id signed 0 rows) (newest_signed none rows) row
          (newest_signed-IsBelow 0 none rows tt) (omega (arith, new)),
    )

abbrev one_time_row : OneTimePreKeyRecord → PreKeyRow
one_time_row r = record {
  key_type = opk;
  key_id = r.key_id;
  public_key = r.public_key;
  wrapped_private_key = r.wrapped_private_key;
  signature = none;
  created_at = r.created_at;
  used = r.used;
}

abbrev signed_row : SignedPreKeyRecord → PreKeyRow
signed_row r = record {
  key_type = signed;
  key_id = r.key_id;
  public_key = r.public_key;
  wrapped_private_key = r.wrapped_private_key;
  signature = some r.signature;
  created_at = r.created_at;
  used = false;
}

count_saved_lem :
    (rows : List PreKeyRow) (r : OneTimePreKeyRecord)
    → list_unused_one_time_pre_key_count (save_one_time_pre_key rows r) ≡ (
        if r.used
        then list_unused_one_time_pre_key_count rows
        else suc (list_unused_one_time_pre_key_count rows))
unfolding save_one_time_pre_key
count_saved_lem rows r = ground (arith, count-append rows (one_time_row r))

next_saved_lem :
    (rows : List PreKeyRow) (r : OneTimePreKeyRecord)
    → next_key_id_for opk (save_one_time_pre_key rows r)
      ≡ max (next_key_id_for opk rows) (suc r.key_id)
unfolding save_one_time_pre_key next_key_id_for
next_saved_lem rows r = omega (arith, highest_id-append opk 0 rows (one_time_row r))

count_signed_lem :
    (rows : List PreKeyRow) (r : SignedPreKeyRecord)
    → list_unused_one_time_pre_key_count (save_signed_pre_key rows r)
      ≡ list_unused_one_time_pre_key_count rows
unfolding save_signed_pre_key
count_signed_lem rows r = count-append rows (signed_row r)

next_signed_lem :
    (rows : List PreKeyRow) (r : SignedPreKeyRecord)
    → next_key_id_for opk (save_signed_pre_key rows r) ≡ next_key_id_for opk rows
unfolding save_signed_pre_key next_key_id_for
next_signed_lem rows r = ap suc (highest_id-append opk 0 rows (signed_row r))

-- The Dexie store keeps what the key code relies on: the counts, the numbers, and the current signed
-- prekey, over any rows.
pub dexie-Laws : PreKeyStoreLaws dexie
dexie-Laws = record {
  count_saved = count_saved_lem;
  next_saved = next_saved_lem;
  count_signed = count_signed_lem;
  next_signed = next_signed_lem;
  current_saved = current_signed_saved;
}
