-- ===== src/Block/Outcome.antt =====
-- src/lib.rs: `normalize_block` against the operations of the block in sequence, on the slots and on
-- the fields of every account.
use mpt_flat_poc.Prelude.{
  ℕ, ◌≡◌, refl, sym, ◌∙◌, ap, Bool, true, false, Bool-cases, inl, inr, ◌⊎◌, Option, none, some,
  List, [], ◌∷◌, list_eqb, list_eqb→eq, if◌then◌else◌,
}
use mpt_flat_poc.Block.{
  StateOp, set_account, delete_account, wipe_storage, set_storage, delete_storage, AccountOutcome,
  keep, set_fields, delete, NetUpdate, no_update, is_delete,
}
use mpt_flat_poc.Block.Normalize.{Updates, net_at, put_net, recreate, normalize_block}
use mpt_flat_poc.Block.Scan.{scan_op, scan_ops}
use mpt_flat_poc.Block.Index.{net_at-put_net, normalize_block-scan}
use mpt_flat_poc.Block.Effect.{
  Fields, Acct, World, created, run_op, run_block, write_slots, set_outcome, cleared, apply_net,
}
use mpt_flat_poc.Block.Sequence.{
  Fine, scan_op-Fine, final, or_else, net_slot, op_slot, slots-run_op, net_slot-scan_op,
  slots-write_slots, fields-write_slots,
}
use mpt_flat_poc.Record.Ops.{empty_code_hash}
use mpt_flat_poc.Result.{ok}

abbrev net_fields : AccountOutcome → Option Fields → Option Fields
net_fields keep f = f
net_fields (set_fields nonce balance code_hash) f = some (nonce, balance, code_hash)
net_fields delete f = none

-- Only the block's slots touch an account that was missing before.
abbrev pub unborn : AccountOutcome → Option Fields → Bool
unborn keep none = true
unborn _ _ = false

abbrev op_fields : StateOp → Option Fields → Option Fields
op_fields (set_account nonce balance code_hash) f = some (nonce, balance, code_hash)
op_fields delete_account f = none
op_fields wipe_storage f = f
op_fields (set_storage slot v) f = created f
op_fields (delete_storage slot) f = f

fields-run_op : (a : Acct) (op : StateOp) → (run_op a op).fields ≡ op_fields op a.fields
unfolding run_op
fields-run_op a (set_account _ _ _) = refl
fields-run_op a delete_account = refl
fields-run_op a wipe_storage = refl
fields-run_op a (set_storage slot v) = refl
fields-run_op a (delete_storage slot) = refl

abbrev revived : AccountOutcome → AccountOutcome
revived o = if is_delete o then set_fields 0 0 empty_code_hash else o

account-recreate : (u : NetUpdate) → (recreate u).account ≡ revived u.account
unfolding recreate
account-recreate u = elim (Bool-cases (is_delete u.account)) [
  | inl e ↦ rw e refl
  | inr e ↦ rw e refl
]

created-revived :
    (o : AccountOutcome) (f x : Option Fields)
    → (unborn o f ≡ false → x ≡ net_fields o f)
    → unborn (revived o) f ≡ false
    → created x ≡ net_fields (revived o) f
created-revived keep none x h k = cc
created-revived keep (some f) x h k = rw (h refl) refl
created-revived (set_fields _ _ _) f x h k = rw (h refl) refl
created-revived delete f x h k = rw (h refl) refl

fields-scan_op :
    (u : NetUpdate) (op : StateOp) (f x : Option Fields)
    → (unborn u.account f ≡ false → x ≡ net_fields u.account f)
    → unborn (scan_op u op).account f ≡ false
    → op_fields op x ≡ net_fields (scan_op u op).account f
unfolding scan_op
fields-scan_op u (set_account _ _ _) f x h k = refl
fields-scan_op u delete_account f x h k = refl
fields-scan_op u wipe_storage f x h k = h k
fields-scan_op u (set_storage slot v) f x h k =
    rw (account-recreate u) (created-revived u.account f x h (rw (account-recreate u) at k))
fields-scan_op u (delete_storage slot) f x h k = elim (Bool-cases (is_delete u.account)) [
  | inl e ↦ rw e (h (rw e at k))
  | inr e ↦ rw e (h (rw e at k))
]

-- The update says what became of the account.
record Settled (a : Acct) (u : NetUpdate) (x : Acct) : Type 0 where
  fine : Fine u
  on_slots : (s : List ℕ) → x.slots s ≡ net_slot u (a.slots s) s
  on_fields : unborn u.account a.fields ≡ false → x.fields ≡ net_fields u.account a.fields

run_op-Settled :
    (a : Acct) (u : NetUpdate) (x : Acct) (op : StateOp)
    → Settled a u x
    → Settled a (scan_op u op) (run_op x op)
run_op-Settled a u x op st = record {
  fine = scan_op-Fine u op st.fine;
  on_slots = λ s.
      slots-run_op x op s
      ∙ ap (op_slot op s) (st.on_slots s)
      ∙ sym (net_slot-scan_op u op (a.slots s) s st.fine);
  on_fields = λ k. fields-run_op x op ∙ fields-scan_op u op a.fields x.fields st.on_fields k;
}

run_block-Settled :
    (ops : List (List ℕ × StateOp)) (m : Updates) (a : Acct) (w : World) (key : List ℕ)
    → Settled a (net_at m key) (w key)
    → Settled a (net_at (scan_ops m ops) key) (run_block w ops key)
unfolding scan_ops run_block
run_block-Settled [] m a w key st = st
run_block-Settled (o ∷ ops) m a w key st =
    run_block-Settled ops (put_net m o.0 (scan_op (net_at m o.0) o.1)) a
      (λ k. if list_eqb k o.0 then run_op (w k) o.1 else w k) key
      (rw (net_at-put_net m o.0 key (scan_op (net_at m o.0) o.1))
        (by_key (Bool-cases (list_eqb key o.0))))
  where
    by_key :
        (list_eqb key o.0 ≡ true) ⊎ (list_eqb key o.0 ≡ false)
        → Settled a
            (if list_eqb key o.0 then scan_op (net_at m o.0) o.1 else net_at m key)
            (if list_eqb key o.0 then run_op (w key) o.1 else w key)
    by_key (inl same) =
        rw same
          (rw (sym (list_eqb→eq key o.0 same)) (run_op-Settled a (net_at m key) (w key) o.1 st))
    by_key (inr other) = rw other st

slots-cleared :
    (b : Bool) (a : Acct) (s : List ℕ) → (cleared b a).slots s ≡ (if b then none else a.slots s)
unfolding cleared
slots-cleared true a s = refl
slots-cleared false a s = refl

fields-cleared : (b : Bool) (a : Acct) → (cleared b a).fields ≡ a.fields
unfolding cleared
fields-cleared true a = refl
fields-cleared false a = refl

slots-apply_net :
    (u : NetUpdate) (a : Acct) (s : List ℕ)
    → Fine u
    → (apply_net a u).slots s ≡ net_slot u (a.slots s) s
unfolding apply_net set_outcome net_slot
slots-apply_net u a s fine = by_outcome u.account refl
  where
    kept :
        (x : Acct)
        → x.slots s ≡ (cleared u.wipe a).slots s
        → (write_slots x u.slots).slots s
          ≡ or_else (final u.slots s) (if u.wipe then none else a.slots s)
    kept x same =
        slots-write_slots u.slots x s fine.distinct
        ∙ ap (or_else (final u.slots s)) (same ∙ slots-cleared u.wipe a s)

    by_outcome :
        (o : AccountOutcome) → u.account ≡ o → (apply_net a u).slots s ≡ net_slot u (a.slots s) s
    by_outcome keep e = rw e (kept (cleared u.wipe a) refl)
    by_outcome (set_fields n b c) e =
        rw e (kept (record (cleared u.wipe a) { fields = some (n, b, c) }) refl)
    by_outcome delete e = rw e refl

fields-apply_net :
    (u : NetUpdate) (a : Acct)
    → unborn u.account a.fields ≡ false
    → (apply_net a u).fields ≡ net_fields u.account a.fields
unfolding apply_net set_outcome
fields-apply_net u a born = by_outcome u.account refl a.fields refl
  where
    by_outcome :
        (o : AccountOutcome)
        → u.account ≡ o
        → (f : Option Fields) → a.fields ≡ f
        → (apply_net a u).fields ≡ net_fields u.account a.fields
    by_outcome keep e none g = let no = rw (e, g) at born in cc
    by_outcome keep e (some f) g =
        rw e (fields-write_slots u.slots (cleared u.wipe a) f (fields-cleared u.wipe a ∙ g) ∙ sym g)
    by_outcome (set_fields n b c) e f g = rw e (
        fields-write_slots u.slots (record (cleared u.wipe a) { fields = some (n, b, c) }) (n, b, c)
          refl)
    by_outcome delete e f g = rw e refl

-- The accounts that the net updates of a block leave.
unfoldable pub net_world : World → Updates → World
unfolding net_at apply_net
net_world w m key = apply_net (w key) (net_at m key)

no_update-Settled : (a : Acct) → Settled a no_update a
no_update-Settled a = record {
  fine = record { distinct = tt; bare = λ e. cc; clean = λ e. cc };
  on_slots = λ s. unfold net_slot final in refl;
  on_fields = λ k. refl;
}

settled :
    (w : World) (ops : List (List ℕ × StateOp)) (m : Updates) (key : List ℕ)
    → normalize_block ops ≡ ok m
    → Settled (w key) (net_at m key) (run_block w ops key)
settled w ops m key h =
    rw (← found (normalize_block-scan ops))
      (run_block-Settled ops [] (w key) w key (unfold net_at in no_update-Settled (w key)))
  where
    found : normalize_block ops ≡ ok (scan_ops [] ops) → scan_ops [] ops ≡ m
    found e = cc (e, h)

-- The net updates that `normalize_block` finds for a block give every slot of every account the
-- value that the operations of the block give it in sequence.
pub slots-net_world :
    (w : World) (ops : List (List ℕ × StateOp)) (m : Updates) (key slot : List ℕ)
    → normalize_block ops ≡ ok m
    → (net_world w m key).slots slot ≡ (run_block w ops key).slots slot
unfolding net_world
slots-net_world w ops m key slot h =
    let st = settled w ops m key h in
    slots-apply_net (net_at m key) (w key) slot st.fine ∙ sym (st.on_slots slot)

-- The net updates that `normalize_block` finds for a block give an account the fields that the
-- operations of the block give it in sequence, if the account existed before the block or the
-- block sets or deletes it.
pub fields-net_world :
    (w : World) (ops : List (List ℕ × StateOp)) (m : Updates) (key : List ℕ)
    → normalize_block ops ≡ ok m
    → unborn (net_at m key).account (w key).fields ≡ false
    → (net_world w m key).fields ≡ (run_block w ops key).fields
unfolding net_world
fields-net_world w ops m key h born =
    let st = settled w ops m key h in
    fields-apply_net (net_at m key) (w key) born ∙ sym (st.on_fields born)
