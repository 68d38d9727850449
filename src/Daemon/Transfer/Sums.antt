-- ===== src/Daemon/Transfer/Sums.antt =====
-- The sizes of a manifest's entries and files (device/rsdbd/src/main.rs).
use mathlib.Core.List.{append-nil, append_assoc}
use rsdb.Base.{ℕ, suc, ◌+◌, ◌<◌, List, [], ◌∷◌, ◌++◌, map, All}
use rsdb.Base.{◌≡◌, refl, sym, ap, ◌∙◌, arith}
use rsdb.Proto.Messages.{TransferEntryKind, file, directory, TransferEntry}
use rsdb.Daemon.Transfer.Manifest.{BatchFileSource, Collected}

abbrev pub sum_sizes : List BatchFileSource → ℕ
sum_sizes [] = 0
sum_sizes (source ∷ files) = source.size + sum_sizes files

abbrev pub size_if_file : TransferEntryKind → ℕ → List ℕ
size_if_file file size = size ∷ []
size_if_file directory size = []

-- The sizes of the entries that are files, in their order.
abbrev pub file_sizes : List TransferEntry → List ℕ
file_sizes [] = []
file_sizes (entry ∷ entries) = size_if_file entry.kind entry.size ++ file_sizes entries

abbrev pub sizes : List BatchFileSource → List ℕ
sizes files = map (λ source. source.size) files

-- With `roots` roots so far.
pub record IsTally (roots : ℕ) (all : Collected) : Type 0 where
  pub total : all.total_bytes ≡ sum_sizes all.files
  pub in_order : file_sizes all.entries ≡ sizes all.files
  pub rooted : All (λ entry. entry.root_index < roots) all.entries

pub sum_sizes-append :
    (xs ys : List BatchFileSource) → sum_sizes (xs ++ ys) ≡ sum_sizes xs + sum_sizes ys
sum_sizes-append [] ys = omega arith
sum_sizes-append (x ∷ xs) ys = omega (arith, sum_sizes-append xs ys)

pub sizes-append : (xs ys : List BatchFileSource) → sizes (xs ++ ys) ≡ sizes xs ++ sizes ys
sizes-append [] ys = refl
sizes-append (x ∷ xs) ys = ap (λ t. x.size ∷ t) (sizes-append xs ys)

pub file_sizes-snoc :
    (xs : List TransferEntry) (y : TransferEntry)
    → file_sizes (xs ++ (y ∷ [])) ≡ file_sizes xs ++ size_if_file y.kind y.size
file_sizes-snoc [] y = append-nil (size_if_file y.kind y.size)
file_sizes-snoc (x ∷ xs) y =
    ap (λ t. size_if_file x.kind x.size ++ t) (file_sizes-snoc xs y)
    ∙ sym (append_assoc (size_if_file x.kind x.size) (file_sizes xs) (size_if_file y.kind y.size))

pub All-lt-suc :
    (n : ℕ) (entries : List TransferEntry)
    → All (λ entry. entry.root_index < n) entries
    → All (λ entry. entry.root_index < suc n) entries
All-lt-suc n [] h = tt
All-lt-suc n (entry ∷ entries) h = (omega (arith, h.0), All-lt-suc n entries h.1)
