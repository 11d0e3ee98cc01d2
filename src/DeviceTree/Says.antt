-- ===== src/DeviceTree/Says.antt =====
-- What the lines of a printed tree say, spelled out apart from the printing.
use Prim.Native.String.{String}
use octiron.Base.{
  ℕ, zero, suc, ◌+◌, ◌*◌, ◌%◌, ◌^◌, ◌<◌, ◌≡◌, ◌≢◌, ◌⊎◌, true, false, ◌==◌, if◌then◌else◌, List, [],
  ◌∷◌, ◌++◌,
}
use octiron.Number.{Bytes}
use octiron.View.{View}
use octiron.Printer.Laws.{Digits}
use octiron.DeviceTree.{Data, DeviceStatus}
use octiron.DeviceTree.Names.{codes}
use octiron.DeviceTree.Layout.{Forest, nil, tree}

abbrev pub spaces : ℕ → List ℕ
spaces zero = []
spaces (suc n) = 32 ∷ spaces n

abbrev pub ended : String → List ℕ
ended s = codes s ++ 10 ∷ []

-- What a status that was not recognized says, by the number that is taken for it.
abbrev pub unset_text : ℕ → List ℕ
unset_text zero = ended "OKAY"
unset_text (suc zero) = ended "DISABLED"
unset_text (suc (suc zero)) = ended "RESERVED"
unset_text (suc (suc (suc zero))) = ended "FAIL"
unset_text (suc (suc (suc (suc n)))) = []

abbrev pub HasEmpty : List View → Type 0
HasEmpty [] = ⊥
HasEmpty (v ∷ vs) = (v.size ≡ 0) ⊎ HasEmpty vs

abbrev pub before_empty : List View → List View
before_empty [] = []
before_empty (v ∷ vs) = if v.size == 0 then [] else v ∷ before_empty vs

-- A line with a decimal number, and one with a hexadecimal number.
abbrev pub IsNumberLine : String → ℕ → String → List ℕ → Type 0
IsNumberLine before n behind t = (d : Digits 10 n) × (t ≡ codes before ++ d.chars ++ ended behind)

abbrev pub IsHexLine : ℕ → List ℕ → Type 0
IsHexLine n t = (d : Digits 16 n) × (t ≡ 48 ∷ 120 ∷ (d.chars ++ 10 ∷ []))

-- The numbers fit 64 bits, the array of texts holds an empty one, and the number of a status that was
-- not recognized is not that of the one with a reason.
abbrev pub IsPrintable : Data → Type 0
IsPrintable (Data.raw v) = v.size < 2 ^ 64
IsPrintable (Data.compatible vs) = HasEmpty vs
IsPrintable (Data.model v) = Unit {0}
IsPrintable (Data.phandle n) = n < 2 ^ 64
IsPrintable (Data.status value reason) = Unit {0}
IsPrintable (Data.status_unset v) = v.ptr % 2 ^ 32 ≢ 4
IsPrintable (Data.address_cells n) = n < 2 ^ 64
IsPrintable (Data.size_cells n) = n < 2 ^ 64
IsPrintable (Data.dma_coherence b) = Unit {0}
IsPrintable (Data.device_type v) = Unit {0}
IsPrintable (Data.reg n addresses sizes) = n < 2 ^ 64
IsPrintable (Data.ranges n cbus pbus sizes) = n < 2 ^ 64
IsPrintable (Data.virtual_reg n) = n < 2 ^ 64
IsPrintable (Data.interrupt_parent n) = n < 2 ^ 64
IsPrintable (Data.interrupt_controller v) = Unit {0}
IsPrintable (Data.interrupt_cells n) = n < 2 ^ 64

abbrev pub ArePrintable : List (View × Data) → Type 0
ArePrintable [] = Unit {0}
ArePrintable ((name, x) ∷ ps) = IsPrintable x × ArePrintable ps

abbrev pub IsPrintableForest : Forest → Type 0
IsPrintableForest nil = Unit {0}
IsPrintableForest (tree name a s ps ts rest) =
    ArePrintable ps × IsPrintableForest ts × IsPrintableForest rest

module _ (m : Bytes) where
  abbrev pub bytes : (p n : ℕ) → List ℕ
  bytes p zero = []
  bytes p (suc n) = m p ∷ bytes (p + 1) n

  abbrev pub bytes_of : View → List ℕ
  bytes_of v = bytes v.ptr v.size

  -- Texts with commas in between, behind the first.
  abbrev pub comma_texts : List View → List ℕ
  comma_texts [] = []
  comma_texts (v ∷ vs) = codes ", " ++ bytes_of v ++ comma_texts vs

  abbrev pub joined : List View → List ℕ
  joined [] = []
  joined (v ∷ vs) = bytes_of v ++ comma_texts vs

  -- What stands behind a property's name.
  abbrev pub Says : Data → List ℕ → Type 0
  Says (Data.raw v) t = IsNumberLine "RAW (length: " v.size ")" t
  Says (Data.compatible vs) t = t ≡ codes "[" ++ joined (before_empty vs) ++ ended "]"
  Says (Data.model v) t = t ≡ bytes_of v ++ 10 ∷ []
  Says (Data.phandle n) t = IsHexLine n t
  Says (Data.status DeviceStatus.okay reason) t = t ≡ ended "OKAY"
  Says (Data.status DeviceStatus.disabled reason) t = t ≡ ended "DISABLED"
  Says (Data.status DeviceStatus.reserved reason) t = t ≡ ended "RESERVED"
  Says (Data.status DeviceStatus.fail reason) t = t ≡ ended "FAIL"
  Says (Data.status DeviceStatus.fail_with_reason reason) t =
      t ≡ codes "FAIL: " ++ bytes_of reason ++ 10 ∷ []
  Says (Data.status_unset v) t = t ≡ unset_text (v.ptr % 2 ^ 32)
  Says (Data.address_cells n) t = IsNumberLine "" n "" t
  Says (Data.size_cells n) t = IsNumberLine "" n "" t
  Says (Data.dma_coherence true) t = t ≡ ended "true"
  Says (Data.dma_coherence false) t = t ≡ ended "false"
  Says (Data.device_type v) t = t ≡ bytes_of v ++ 10 ∷ []
  Says (Data.reg n addresses sizes) t = IsNumberLine "REG (" n " pairs)" t
  Says (Data.ranges n cbus pbus sizes) t = IsNumberLine "RANGES (" n " trips)" t
  Says (Data.virtual_reg n) t = IsHexLine n t
  Says (Data.interrupt_parent n) t = IsHexLine n t
  Says (Data.interrupt_controller v) t = t ≡ ended "true"
  Says (Data.interrupt_cells n) t = IsNumberLine "" n "" t

  abbrev pub SayProperties : (depth : ℕ) → List (View × Data) → List ℕ → Type 0
  SayProperties depth [] t = t ≡ []
  SayProperties depth ((name, x) ∷ ps) t =
      (value : List ℕ) × (rest : List ℕ) × Says x value
      × SayProperties depth ps rest
      × (t
          ≡ (spaces (2 * suc depth) ++ codes "Property: " ++ bytes_of name ++ codes " = " ++ value)
            ++ rest)

  -- A node's line, its properties' lines, its children two spaces further in, and its siblings.
  abbrev pub SayForest : (depth : ℕ) → Forest → List ℕ → Type 0
  SayForest depth nil t = t ≡ []
  SayForest depth (tree name a s ps ts rest) t =
      (properties : List ℕ) × (children : List ℕ) × (siblings : List ℕ) × SayProperties depth ps
        properties
      × SayForest (suc depth) ts children
      × SayForest depth rest siblings
      × (t
          ≡ ((spaces (2 * depth) ++ codes "Node: " ++ bytes_of name ++ ended " {")
              ++ properties
              ++ children)
            ++ siblings)
