-- ===== src/PtrArgs/Rows.antt =====
-- ebpf.go: the rows of the composite literal in fillPtrArgs, in the source's order.
use syscap.Base.{ℕ, List, [], ◌∷◌}

unfoldable pub ptr_rows_one : List (ℕ × ℕ)
ptr_rows_one =
    (284, 0)
    ∷ (334, 1)
    ∷ (470, 3)
    ∷ (23, 30)
    ∷ (26, 0)
    ∷ (87, 1)
    ∷ (199, 2)
    ∷ (286, 12)
    ∷ (288, 6)
    ∷ (310, 10)
    ∷ (456, 1)
    ∷ (211, 0)
    ∷ (461, 3)
    ∷ (7, 1)
    ∷ (43, 6)
    ∷ (118, 7)
    ∷ (148, 2)
    ∷ (287, 2)
    ∷ (311, 10)
    ∷ (439, 2)
    ∷ (29, 0)
    ∷ (58, 0)
    ∷ (120, 7)
    ∷ (122, 0)
    ∷ (217, 2)
    ∷ (302, 12)
    ∷ (33, 0)
    ∷ (144, 4)
    ∷ (171, 1)
    ∷ (197, 3)
    ∷ (250, 0)
    ∷ (253, 0)
    ∷ (271, 13)
    ∷ (443, 8)
    ∷ (15, 0)
    ∷ (70, 2)
    ∷ (124, 0)
    ∷ (274, 6)
    ∷ (280, 6)
    ∷ (299, 18)
    ∷ (317, 4)
    ∷ (90, 1)
    ∷ (246, 4)
    ∷ (270, 62)
    ∷ (292, 0)
    ∷ (305, 2)
    ∷ (69, 2)
    ∷ (81, 0)
    ∷ (84, 1)
    ∷ (107, 0)
    ∷ (109, 0)
    ∷ (294, 0)
    ∷ (321, 2)
    ∷ (448, 0)
    ∷ (28, 0)
    ∷ (93, 0)
    ∷ (183, 0)
    ∷ (216, 0)
    ∷ (252, 0)
    ∷ (262, 6)
    ∷ (447, 0)
    ∷ (131, 3)
    ∷ (228, 2)
    ∷ (232, 2)
    ∷ (249, 0)
    ∷ (442, 10)
    ∷ (145, 0)
    ∷ (210, 6)
    ∷ (308, 0)
    ∷ (438, 0)
    ∷ (50, 0)
    ∷ (89, 3)
    ∷ (106, 0)
    ∷ (135, 0)
    ∷ (149, 0)
    ∷ (190, 6)
    ∷ (281, 18)
    ∷ (297, 8)
    ∷ (27, 4)
    ∷ (111, 0)
    ∷ (134, 0)
    ∷ (139, 0)
    ∷ (167, 1)
    ∷ (179, 10)
    ∷ (229, 2)
    ∷ (236, 0)
    ∷ (241, 1)
    ∷ (244, 2)
    ∷ (254, 2)
    ∷ (261, 6)
    ∷ (282, 2)
    ∷ (309, 7)
    ∷ (320, 8)
    ∷ (429, 10)
    ∷ (119, 0)
    ∷ (136, 2)
    ∷ (152, 0)
    ∷ (279, 28)
    ∷ (304, 2)
    ∷ (437, 6)
    ∷ (462, 0)
    ∷ (45, 50)
    ∷ (56, 12)
    ∷ (105, 0)
    ∷ (173, 0)
    ∷ (175, 5)
    ∷ (212, 0)
    ∷ (242, 18)
    ∷ (259, 2)
    ∷ (112, 0)
    ∷ (132, 3)
    ∷ (267, 6)
    ∷ (268, 2)
    ∷ (276, 0)
    ∷ (324, 0)
    ∷ (328, 2)
    ∷ []

unfoldable pub ptr_rows_two : List (ℕ × ℕ)
ptr_rows_two =
    (436, 0)
    ∷ (57, 0)
    ∷ (79, 1)
    ∷ (146, 0)
    ∷ (170, 1)
    ∷ (178, 0)
    ∷ (193, 6)
    ∷ (202, 25)
    ∷ (227, 2)
    ∷ (104, 0)
    ∷ (265, 10)
    ∷ (272, 0)
    ∷ (290, 0)
    ∷ (332, 18)
    ∷ (446, 0)
    ∷ (468, 6)
    ∷ (4, 0)
    ∷ (12, 0)
    ∷ (41, 0)
    ∷ (168, 1)
    ∷ (221, 0)
    ∷ (336, 0)
    ∷ (424, 4)
    ∷ (426, 16)
    ∷ (37, 0)
    ∷ (59, 7)
    ∷ (96, 3)
    ∷ (208, 24)
    ∷ (293, 1)
    ∷ (300, 0)
    ∷ (307, 2)
    ∷ (1, 2)
    ∷ (195, 3)
    ∷ (220, 10)
    ∷ (319, 1)
    ∷ (463, 26)
    ∷ (127, 1)
    ∷ (431, 0)
    ∷ (444, 1)
    ∷ (457, 3)
    ∷ (165, 23)
    ∷ (325, 0)
    ∷ (433, 2)
    ∷ (32, 0)
    ∷ (74, 0)
    ∷ (102, 0)
    ∷ (137, 3)
    ∷ (172, 0)
    ∷ (248, 0)
    ∷ (251, 0)
    ∷ (291, 0)
    ∷ (67, 1)
    ∷ (166, 0)
    ∷ (273, 1)
    ∷ (278, 2)
    ∷ (430, 0)
    ∷ (453, 0)
    ∷ (466, 10)
    ∷ (42, 2)
    ∷ (237, 8)
    ∷ (256, 12)
    ∷ (315, 2)
    ∷ (333, 56)
    ∷ (451, 6)
    ∷ (464, 26)
    ∷ (2, 1)
    ∷ (19, 2)
    ∷ (30, 2)
    ∷ (121, 0)
    ∷ (151, 0)
    ∷ (200, 0)
    ∷ (206, 2)
    ∷ (471, 0)
    ∷ (54, 8)
    ∷ (99, 1)
    ∷ (125, 0)
    ∷ (225, 0)
    ∷ (303, 14)
    ∷ (318, 1)
    ∷ (427, 4)
    ∷ (35, 3)
    ∷ (36, 2)
    ∷ (73, 0)
    ∷ (103, 2)
    ∷ (117, 0)
    ∷ (192, 7)
    ∷ (231, 0)
    ∷ (316, 10)
    ∷ (110, 0)
    ∷ (156, 0)
    ∷ (191, 7)
    ∷ (219, 0)
    ∷ (240, 9)
    ∷ (329, 0)
    ∷ (465, 10)
    ∷ (10, 0)
    ∷ (95, 0)
    ∷ (116, 2)
    ∷ (186, 0)
    ∷ (301, 16)
    ∷ (25, 0)
    ∷ (78, 2)
    ∷ (313, 2)
    ∷ (440, 2)
    ∷ (18, 2)
    ∷ (184, 0)
    ∷ (188, 7)
    ∷ (247, 20)
    ∷ (8, 0)
    ∷ (9, 0)
    ∷ (75, 0)
    ∷ (322, 14)
    ∷ (323, 0)
    ∷ (449, 9)
    ∷ (14, 6)
    ∷ (62, 0)
    ∷ []

unfoldable pub ptr_rows_three : List (ℕ × ℕ)
ptr_rows_three =
    (128, 7)
    ∷ (205, 0)
    ∷ (425, 2)
    ∷ (22, 1)
    ∷ (47, 2)
    ∷ (68, 0)
    ∷ (198, 3)
    ∷ (435, 1)
    ∷ (450, 0)
    ∷ (460, 2)
    ∷ (469, 6)
    ∷ (13, 6)
    ∷ (39, 0)
    ∷ (63, 0)
    ∷ (185, 0)
    ∷ (445, 4)
    ∷ (85, 1)
    ∷ (94, 1)
    ∷ (434, 0)
    ∷ (458, 3)
    ∷ (20, 2)
    ∷ (44, 18)
    ∷ (108, 0)
    ∷ (162, 0)
    ∷ (187, 0)
    ∷ (189, 7)
    ∷ (196, 2)
    ∷ (222, 6)
    ∷ (11, 0)
    ∷ (52, 6)
    ∷ (126, 0)
    ∷ (215, 0)
    ∷ (235, 3)
    ∷ (239, 3)
    ∷ (277, 0)
    ∷ (285, 0)
    ∷ (5, 0)
    ∷ (34, 0)
    ∷ (53, 8)
    ∷ (260, 2)
    ∷ (312, 0)
    ∷ (49, 2)
    ∷ (55, 24)
    ∷ (91, 0)
    ∷ (160, 2)
    ∷ (174, 0)
    ∷ (275, 10)
    ∷ (467, 10)
    ∷ (51, 6)
    ∷ (60, 0)
    ∷ (115, 2)
    ∷ (155, 3)
    ∷ (77, 0)
    ∷ (82, 3)
    ∷ (123, 0)
    ∷ (181, 0)
    ∷ (224, 2)
    ∷ (257, 2)
    ∷ (331, 0)
    ∷ (459, 6)
    ∷ (21, 1)
    ∷ (65, 2)
    ∷ (92, 1)
    ∷ (157, 0)
    ∷ (0, 2)
    ∷ (61, 10)
    ∷ (163, 1)
    ∷ (194, 3)
    ∷ (326, 10)
    ∷ (335, 0)
    ∷ (432, 0)
    ∷ (72, 0)
    ∷ (76, 1)
    ∷ (97, 2)
    ∷ (154, 2)
    ∷ (164, 3)
    ∷ (245, 6)
    ∷ (16, 0)
    ∷ (83, 1)
    ∷ (88, 3)
    ∷ (218, 1)
    ∷ (289, 2)
    ∷ (113, 0)
    ∷ (140, 0)
    ∷ (161, 1)
    ∷ (201, 1)
    ∷ (226, 0)
    ∷ (40, 0)
    ∷ (46, 2)
    ∷ (80, 1)
    ∷ (204, 4)
    ∷ (223, 12)
    ∷ (234, 0)
    ∷ (296, 2)
    ∷ (428, 2)
    ∷ (17, 2)
    ∷ (66, 0)
    ∷ (133, 1)
    ∷ (159, 1)
    ∷ (233, 8)
    ∷ (263, 2)
    ∷ (454, 1)
    ∷ (64, 0)
    ∷ (130, 1)
    ∷ (153, 0)
    ∷ (264, 10)
    ∷ (169, 8)
    ∷ (177, 0)
    ∷ (31, 4)
    ∷ (86, 3)
    ∷ (100, 1)
    ∷ (238, 2)
    ∷ (258, 2)
    ∷ (452, 2)
    ∷ []
