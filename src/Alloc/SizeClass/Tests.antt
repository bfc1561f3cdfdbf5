-- ===== src/Alloc/SizeClass/Tests.antt =====
-- A lookup in the table of a page of 4096 bytes.
use yikv.Prelude.{arith, ◌-◌, ◌^◌, ◌≡◌, refl, ◌+◌, some, none}
use yikv.Alloc.SizeClass.{build_size_classes, find_class, find_class_tiny}
use yikv.Alloc.SizeClass.Laws.{IsFirstFit, find_class-IsFirstFit}

find_class_small : find_class (build_size_classes 4096) 30 ≡ some 2
unfolding find_class find_class_tiny build_size_classes
find_class_small = refl

find_class_middle : find_class (build_size_classes 4096) 400 ≡ some 39
unfolding find_class find_class_tiny build_size_classes
find_class_middle = refl

find_class_large : find_class (build_size_classes 4096) 4090 ≡ none
unfolding find_class find_class_tiny build_size_classes
find_class_large = refl

-- The largest size wraps around, and gets the smallest blocks.
find_class_wraps : find_class (build_size_classes 4096) (2 ^ 64 - 1) ≡ some 0
unfolding find_class find_class_tiny build_size_classes
find_class_wraps = refl

find_class-IsFirstFit_example :
    IsFirstFit (build_size_classes 4096) 0 (400 + 8) (find_class (build_size_classes 4096) 400)
find_class-IsFirstFit_example = find_class-IsFirstFit 4096 400 (omega arith)
