-- ===== src/DeviceTree/Success.antt =====
-- What the success of `parse_from_blob` says.
use octiron.Base.{
  ℕ, ◌+◌, ◌≡◌, refl, true, not, ◌==◌, done, none, some, arith, Ensures, Ensures-skip, Ensures-if,
  Ensures-Bool, Ensures-done, returned,
}
use octiron.Number.{Bytes, load, flip_endianness32}
use octiron.Errors.{Error, ErrorCode, of_code, is_ok, is_err, push}
use octiron.Errors.Stack.{push-is_err}
use octiron.View.{View}
use octiron.Stack.{Ref}
use octiron.DeviceTree.{DeviceTree, Node, set_node}
use octiron.DeviceTree.Parse.{parse_structures, read_reserved}
use octiron.DeviceTree.Rewrite.{rewrite_node, rewrite_pass, parse_from_blob}

IsHonest : Error × DeviceTree → Type 0
IsHonest out = is_ok out.0 ≡ true → out.1.initialized ≡ true

failed : (e : Error) (d : DeviceTree) → is_err e ≡ true → IsHonest (e, d)
unfolding IsHonest is_err
failed e d err ok = ground (arith, err, ok)

pushed : (e : Error) → is_err (push e ErrorCode.dt_rewrite_failed) ≡ true
pushed e = push-is_err e ErrorCode.dt_rewrite_failed λ h. ground (arith, h)

no_nodes : is_err (of_code ErrorCode.dt_no_nodes) ≡ true
unfolding is_err
no_nodes = refl

no_magic : is_err (of_code ErrorCode.dt_magic_number) ≡ true
unfolding is_err
no_magic = refl

module _ (hhdm_base text_fuel : ℕ) (m : Bytes) where
  rewrite_pass-IsHonest :
      (fuel : ℕ) (root_name : View) (d : DeviceTree)
      → Ensures IsHonest (rewrite_pass hhdm_base text_fuel m fuel root_name d)
  unfolding rewrite_pass IsHonest
  rewrite_pass-IsHonest fuel root_name d =
      let root : Ref = record { buffer = d.node_stack.buffer; index = 0 } in
      let node : Node = record (d.nodes root) { address_cells = 2; size_cells = 1 } in
      Ensures-if (d.node_stack.size == 0) (returned (failed _ d no_nodes)) (
        Ensures-skip
          (rewrite_node hhdm_base text_fuel m fuel root
            (set_node root node (record d { root = some root })))
          λ (err, d').
            Ensures-Bool (is_err err) (returned (failed _ d' (pushed err))) (returned λ ok. refl))

  -- When `parse_from_blob` returns no error, the tree is marked as initialized.
  pub parse_from_blob_initialized :
      (fuel : ℕ) (root_name : View) (dtb : ℕ) (d : DeviceTree) (out : Error × DeviceTree)
      → parse_from_blob hhdm_base text_fuel m fuel root_name dtb d ≡ done out
      → is_ok out.0 ≡ true
      → out.1.initialized ≡ true
  unfolding parse_from_blob IsHonest
  parse_from_blob_initialized fuel root_name dtb d out = Ensures-done whole
    where
      whole : Ensures IsHonest (parse_from_blob hhdm_base text_fuel m fuel root_name dtb d)
      whole =
          Ensures-if (not (flip_endianness32 (load 4 m dtb) == 0xD00DFEED))
            (returned (failed _ d no_magic))
            (Ensures-skip
              (read_reserved hhdm_base text_fuel m fuel
                (dtb + flip_endianness32 (load 4 m (dtb + 16))) d)
              λ d₁.
                Ensures-skip
                  (parse_structures hhdm_base text_fuel m fuel
                    (dtb + flip_endianness32 (load 4 m (dtb + 8)))
                    (dtb + flip_endianness32 (load 4 m (dtb + 12)))
                    (record { current = none; offset = 0; depth = 0; tree = d₁ }))
                  λ d₂. rewrite_pass-IsHonest fuel root_name d₂)
