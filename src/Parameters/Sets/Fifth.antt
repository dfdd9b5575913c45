-- ===== src/Parameters/Sets/Fifth.antt =====
-- Rows of the table of rfc6330_alg/parameters.c, from K' = 22073 to K' = 56403.
use tv_rq.Prelude.{List, [], ◌∷◌}
use tv_rq.Parameters.Row.{BaseParamSet, row}

unfoldable pub fifth_sets : List BaseParamSet
fifth_sets =
    row 22073 640 431 13 22283
    ∷ row 22301 922 433 13 22511
    ∷ row 22536 250 439 13 22751
    ∷ row 22779 367 439 13 22993
    ∷ row 23010 447 443 13 23227
    ∷ row 23252 559 449 13 23473
    ∷ row 23491 121 457 13 23719
    ∷ row 23730 623 457 13 23957
    ∷ row 23971 450 457 13 24197
    ∷ row 24215 253 461 13 24443
    ∷ row 24476 106 467 13 24709
    ∷ row 24721 863 467 13 24953
    ∷ row 24976 148 479 13 25219
    ∷ row 25230 427 479 13 25471
    ∷ row 25493 138 479 13 25733
    ∷ row 25756 794 487 13 26003
    ∷ row 26022 247 487 13 26267
    ∷ row 26291 562 491 13 26539
    ∷ row 26566 53 499 13 26821
    ∷ row 26838 135 499 13 27091
    ∷ row 27111 21 503 13 27367
    ∷ row 27392 201 509 13 27653
    ∷ row 27682 169 521 13 27953
    ∷ row 27959 70 521 13 28229
    ∷ row 28248 386 521 13 28517
    ∷ row 28548 226 523 13 28817
    ∷ row 28845 3 541 13 29131
    ∷ row 29138 769 541 13 29423
    ∷ row 29434 590 541 13 29717
    ∷ row 29731 672 541 13 30013
    ∷ row 30037 713 547 13 30323
    ∷ row 30346 967 547 13 30631
    ∷ row 30654 368 557 14 30949
    ∷ row 30974 348 557 14 31267
    ∷ row 31285 119 563 14 31583
    ∷ row 31605 503 569 14 31907
    ∷ row 31948 181 571 14 32251
    ∷ row 32272 394 577 14 32579
    ∷ row 32601 189 587 14 32917
    ∷ row 32932 210 587 14 33247
    ∷ row 33282 62 593 14 33601
    ∷ row 33623 273 593 14 33941
    ∷ row 33961 554 599 14 34283
    ∷ row 34302 936 607 14 34631
    ∷ row 34654 483 607 14 34981
    ∷ row 35031 397 613 14 35363
    ∷ row 35395 241 619 14 35731
    ∷ row 35750 500 631 14 36097
    ∷ row 36112 12 631 14 36457
    ∷ row 36479 958 641 14 36833
    ∷ row 36849 524 641 14 37201
    ∷ row 37227 8 643 14 37579
    ∷ row 37606 100 653 14 37967
    ∷ row 37992 339 653 14 38351
    ∷ row 38385 804 659 14 38749
    ∷ row 38787 510 673 14 39163
    ∷ row 39176 18 673 14 39551
    ∷ row 39576 412 677 14 39953
    ∷ row 39980 394 683 14 40361
    ∷ row 40398 830 691 15 40787
    ∷ row 40816 535 701 15 41213
    ∷ row 41226 199 701 15 41621
    ∷ row 41641 27 709 15 42043
    ∷ row 42067 298 709 15 42467
    ∷ row 42490 368 719 15 42899
    ∷ row 42916 755 727 15 43331
    ∷ row 43388 379 727 15 43801
    ∷ row 43840 73 733 15 44257
    ∷ row 44279 387 739 15 44701
    ∷ row 44729 457 751 15 45161
    ∷ row 45183 761 751 15 45613
    ∷ row 45638 855 757 15 46073
    ∷ row 46104 370 769 15 46549
    ∷ row 46574 261 769 15 47017
    ∷ row 47047 299 787 15 47507
    ∷ row 47523 920 787 15 47981
    ∷ row 48007 269 787 15 48463
    ∷ row 48489 862 797 15 48953
    ∷ row 48976 349 809 15 49451
    ∷ row 49470 103 809 15 49943
    ∷ row 49978 115 821 15 50461
    ∷ row 50511 93 821 16 50993
    ∷ row 51017 982 827 16 51503
    ∷ row 51530 432 839 16 52027
    ∷ row 52062 340 853 16 52571
    ∷ row 52586 173 853 16 53093
    ∷ row 53114 421 857 16 53623
    ∷ row 53650 330 863 16 54163
    ∷ row 54188 624 877 16 54713
    ∷ row 54735 233 877 16 55259
    ∷ row 55289 362 883 16 55817
    ∷ row 55843 963 907 16 56393
    ∷ row 56403 471 907 16 56951
    ∷ []
